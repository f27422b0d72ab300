-- ===== src/Client/Auto/Choice.antt =====
-- Which engines a selected task may run on.
use text.Mathlib.TextEquality.{eq_iff}
use aigo.Base.{
  String, ◌≡◌, refl, sym, ap, ◌∙◌, Bool, true, false, not, ◌&&◌, ◌||◌, some, List, [], ◌∷◌, select,
  some_of, str_eq, arith, none, Bool-cases, inl, inr,
}
use aigo.Base.Assoc.{str_eq_refl}
use aigo.Errors.{Outcome, ok, err}
use aigo.Workflow.{Graph}
use aigo.Task.{AgentTask}
use aigo.BuildGraph.{build_graph}
use aigo.Selector.{EngineInfo, Selection}
use aigo.Client.{Client, is_enabled, engine_names}
use aigo.Client.Execute.{Env, Result}
use aigo.Client.Execute.Laws.{execute-ok}
use aigo.Client.Fallback.{Fallback, execute_with_fallback}
use aigo.Client.Fallback.Attempts.{Ending, execute_with_fallback-Explained}
use aigo.Client.Auto.{
  Selector, RoutedResult, engine_infos, rank, ask, fallen_back, run_ranked,
  execute_task_auto_with_fallback,
}

-- Whether a name stands in a list.
unfoldable pub is_listed : String → List String → Bool
is_listed n names = some_of (λ m. str_eq m n) names

-- No name stands twice in the list.
abbrev pub IsUnique : List String → Type 0
IsUnique [] = Unit
IsUnique (n ∷ names) = (is_listed n names ≡ false) × IsUnique names

listed-select_ne :
    (engine n : String) (names : List String)
    → is_listed n (select (λ m. not (str_eq m engine)) names)
      ≡ (is_listed n names && not (str_eq n engine))
unfolding is_listed
listed-select_ne engine n [] = refl
listed-select_ne engine n (m ∷ names) = ground (arith, listed-select_ne engine n names, eq_iff m n)

select_ne-IsUnique :
    (engine : String) (names : List String)
    → IsUnique names
    → IsUnique (select (λ m. not (str_eq m engine)) names)
select_ne-IsUnique engine [] h = tt
select_ne-IsUnique engine (m ∷ names) h = elim (Bool-cases (str_eq m engine)) [
  | inl e ↦ rw e (select_ne-IsUnique engine names h.1)
  | inr e ↦
      rw e
        (ground (arith, listed-select_ne engine m names, h.0), select_ne-IsUnique engine names h.1)
]

listed-rank :
    (engine n : String) (names : List String)
    → is_listed n (rank engine names) ≡ (str_eq engine n || is_listed n names)
unfolding rank is_listed
listed-rank engine n names =
    ground (arith, listed-select_ne engine n names, eq_iff engine n, eq_iff n engine)

-- The ranked list has the selected engine and all the names, and no name twice if the names have
-- none twice.
pub rank_lem :
    (engine : String) (names : List String)
    → IsUnique names
    → IsUnique (rank engine names)
      × ((n : String) → is_listed n (rank engine names) ≡ (str_eq engine n || is_listed n names))
unfolding rank
rank_lem engine names h = (
  (
    listed-select_ne engine engine names ∙ ground (arith, str_eq_refl engine),
    select_ne-IsUnique engine names h,
  ),
  λ n. listed-rank engine n names,
)

ok_pair {ℓ κ} :
    {A : Type ℓ} {B : Type κ} {a a' : A} {b b' : B}
    → ◌≡◌ {A = Outcome (A × B)} (ok (a, b)) (ok (a', b'))
    → (a ≡ a') × (b ≡ b')
ok_pair h = (cc, cc)

module _ {W : Type 0} (env : Env W) (c : Client W) where
  Ending-enabled :
      (g : Graph) (w : W) (f : Fallback W) (rest : List String) (n : String) (r : Result)
      → Ending env c g false w f rest
      → f.outcome ≡ ok (n, r)
      → (is_enabled c n ≡ true) × (r.engine ≡ n)
  Ending-enabled g w f (_ ∷ _) n r (Ending.success name r' rest live ran p q) h =
      let names : ◌≡◌ {A = Outcome (String × Result)} (ok (name, r')) (ok (n, r)) = sym p ∙ h in
      let (on, valid, asked, answer) = execute-ok env c name g false w r' ran in
      let (same_name, same_result) = ok_pair names in
      (
        ap (is_enabled c) (sym same_name) ∙ on,
        ap (λ (x : Result). x.engine) (sym same_result) ∙ asked ∙ same_name,
      )
  Ending-enabled g w f (_ ∷ _) n r (Ending.cancelled name rest e ctx p q) h = absurd (cc (p, h))
  Ending-enabled g w f [] n r (Ending.exhausted p q) h = absurd (cc (p, h))

  fallback-enabled :
      (g : Graph) (name : String) (names : List String) (w : W) (n : String) (r : Result)
      → (execute_with_fallback env c g false (name ∷ names) w).outcome ≡ ok (n, r)
      → (is_enabled c n ≡ true) × (r.engine ≡ n)
  fallback-enabled g name names w n r h =
      let (tried, rest, skipped, w', cut, all, attempts, ending) =
        execute_with_fallback-Explained env c g false name names w in
      Ending-enabled g w' _ rest n r ending h

  fallen_back-ok :
      (o : Outcome (String × Result)) (x : RoutedResult)
      → fallen_back env c o ≡ ok x
      → o ≡ ok (x.engine, x.output)
  unfolding fallen_back
  fallen_back-ok (err e) x h = absurd (ground arith)
  fallen_back-ok (ok (name, r)) x h = ground arith

  run_ranked-enabled :
      (s : Selector W) (t : AgentTask) (a : Outcome Selection × W) (x : RoutedResult)
      → (run_ranked env c s t a).outcome ≡ ok x
      → (is_enabled c x.engine ≡ true) × (x.output.engine ≡ x.engine)
  unfolding run_ranked rank
  run_ranked-enabled s t (err e, w) x h = absurd (ground arith)
  run_ranked-enabled s t (ok sel, w) x h =
      fallback-enabled (build_graph t) sel.engine _ w x.engine x.output (fallen_back-ok _ x h)

  -- Whatever the selector answers, a result of `ExecuteTaskAutoWithFallback` comes from an engine
  -- that is registered and enabled, and carries the name of this engine.
  pub execute_task_auto_with_fallback-enabled :
      (s : Selector W) (t : AgentTask) (w : W) (x : RoutedResult)
      → (execute_task_auto_with_fallback env c (some s) t w).outcome ≡ ok x
      → (is_enabled c x.engine ≡ true) × (x.output.engine ≡ x.engine)
  unfolding execute_task_auto_with_fallback
  execute_task_auto_with_fallback-enabled s t w x h = run_ranked-enabled s t (ask env c s t w) x h

  -- How the selector is asked: a rich selector with the infos of the enabled engines, another one with
  -- their names.
  pub data Asked (s : Selector W) (t : AgentTask) (w : W) : Outcome Selection × W → Type 0 where
    with_names : s.from_candidates ≡ none → Asked s t w (s.select_engine t (engine_names c) w)
    with_infos :
        (choose : AgentTask → List EngineInfo → W → Outcome Selection × W)
        → s.from_candidates ≡ some choose
        → Asked s t w (choose t (engine_infos c) w)
