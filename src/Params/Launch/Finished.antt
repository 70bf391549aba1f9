-- ===== src/Params/Launch/Finished.antt =====
-- How `launch_args_parse` of lib/core/dpdk/parameters.c ends.
use udx_fastpath.Base.{◌≢◌, Bool, List, [], ◌∷◌, ◌++◌}
use udx_fastpath.Params.Outcome.{next, OnNext, OnNext-and_then, OnNext-always, OnNext-eq}
use udx_fastpath.Params.Options.{Found, short_h, unknown, long, help}
use udx_fastpath.Params.Launch.{
  Settings, LaunchEnv, option, long_option, options, finish, with_modes, launch_args_parse,
}

-- The options that end the process, whatever stands before and after them.
pub data Ends : Found → Type 0 where
  by_h : Ends short_h
  by_unknown : Ends unknown
  by_help : Ends (long help)

option-Ends :
    (env : LaunchEnv) (o : Found) (s : Settings) → Ends o → OnNext (λ _. ⊥) (option env o s)
unfolding option long_option
option-Ends env _ s by_h = tt
option-Ends env _ s by_unknown = tt
option-Ends env _ s by_help = tt

options-Ends :
    (env : LaunchEnv) (before : List Found) (o : Found) (behind : List Found) (s : Settings)
    → Ends o
    → OnNext (λ _. ⊥) (options env (before ++ (o ∷ behind)) s)
unfolding options
options-Ends env [] o behind s h =
    OnNext-and_then (λ _. ⊥) (λ _. ⊥) (option env o s) (options env behind) (λ t. t)
      (λ t k. absurd k) (option-Ends env o s h)
options-Ends env (x ∷ before) o behind s h =
    OnNext-and_then (λ _. Unit) (λ _. ⊥) (option env x s) (options env (before ++ (o ∷ behind)))
      (λ t. t) (λ t _. options-Ends env before o behind t h)
      (OnNext-always (λ _. Unit) (option env x s) (λ _. tt))

-- A command line that has -h, --help or an unknown option is never parsed to its end, whatever
-- stands before and after that option.
pub launch_args_parse-Ends :
    (env : LaunchEnv) (before : List Found) (o : Found) (behind : List Found) (rest : Bool)
    (s t : Settings)
    → Ends o
    → launch_args_parse env (before ++ (o ∷ behind)) rest s ≢ next t
unfolding launch_args_parse
launch_args_parse-Ends env before o behind rest s t h e =
    let os = before ++ (o ∷ behind) in
    OnNext-eq (λ _. ⊥) e
      (OnNext-and_then (λ _. ⊥) (λ _. ⊥) (options env os (with_modes s)) (finish rest) (λ x. x)
        (λ x k. absurd k) (options-Ends env before o behind (with_modes s) h))
