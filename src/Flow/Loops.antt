-- ===== src/Flow/Loops.antt =====
-- config.c, the loops that the functions on the flow API's objects share: those of the `_destroy`
-- functions, which take numbers, and of the `_flush` functions. An object has a key, and the driver
-- releases it or answers with an errno.
pub mod Left
use udx_fastpath.Base.{ℕ, Bool, true, false, Option, none, some, List, [], ◌∷◌, ◌==◌, if◌then◌else◌}

-- The driver, the list and the return code after a function.
pub record Result (S T : Type 0) : Type 0 where
  pub driver : S
  pub list : List T
  pub ret : ℕ

-- What the loop over the numbers leaves: whether it broke off, as the object is gone.
pub record Tried (S : Type 0) : Type 0 where
  pub state : S
  pub code : ℕ
  pub gone : Bool

module _ {S T : Type 0} (key : T → ℕ) (release : T → S → S × Option ℕ) where
  -- The loop over the numbers, for one object.
  unfoldable pub try_ids : T → List ℕ → S → ℕ → Tried S
  try_ids t [] s ret = record { state = s; code = ret; gone = false }
  try_ids t (x ∷ xs) s ret =
      let r = release t s in
      let other = try_ids t xs s ret in
      let freed : Tried S = record { state = r.0; code = ret; gone = true } in
      let kept : Tried S = elim r.1 [ none ↦ freed | some errno ↦ try_ids t xs r.0 errno ] in
      if x == key t then kept else other

  -- The loop over the list.
  unfoldable pub destroy_each : List ℕ → List T → S → ℕ → Result S T
  destroy_each ids [] s ret = record { driver = s; list = []; ret = ret }
  destroy_each ids (t ∷ ts) s ret =
      let tried = try_ids t ids s ret in
      let rest = destroy_each ids ts tried.state tried.code in
      if tried.gone then rest else record rest { list = t ∷ rest.list }

module _ {S T : Type 0} (release : T → S → S × Option ℕ) where
  unfoldable pub flush_each : List T → S → ℕ → Result S T
  flush_each [] s ret = record { driver = s; list = []; ret = ret }
  flush_each (t ∷ ts) s ret =
      let r = release t s in
      elim r.1 [
        | none ↦ flush_each ts r.0 ret
        | some errno ↦ let rest = flush_each ts r.0 errno in record rest { list = t ∷ rest.list }
      ]
