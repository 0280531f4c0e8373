-- ===== src/Cli/Run.antt =====
-- src/presentation/cli_app.cpp: `run_generator` without its output: the configuration that it starts,
-- and the loop that watches the service. What the loop reads at each round is given as a list.
use log_generator.Catalog.{member}
use log_generator.Cli.State.{CliOptions}
use log_generator.Domain.{GeneratorConfig, GeneratorState, stopped, LogTemplate, is_file}
use log_generator.Prelude.Result.{Result, ok, throws, invalid_argument, ◌>>=◌, ◌>>◌, throw_if}
use log_generator.Prelude.{
  ℕ, ◌-◌, ◌≡◌, refl, ◌⊎◌, inl, inr, subst, Bool, true, false, not, ◌&&◌, ◌||◌, List, [], ◌∷◌, ◌++◌,
  Option, none, some, ltb, leb, ◌==◌, if◌then◌else◌, Bool-cases, if-holds, Bytes, codes, equal,
  equal_iff, is_empty, All, arith,
}
use log_generator.Service.{is_failed}

-- `requested.erase(id)`.
unfoldable pub without : Bytes → List Bytes → List Bytes
without id [] = []
without id (x ∷ xs) = let rest = without id xs in if equal id x then rest else x ∷ rest

-- The templates that are requested, and the ids that no template has.
unfoldable pub select_templates : List Bytes → List LogTemplate → List LogTemplate × List Bytes
unfolding without member
select_templates requested [] = ([], requested)
select_templates requested (item ∷ items) =
    let rest = select_templates (without item.id requested) items in
    ((if member item.id requested then item ∷ rest.0 else rest.0), rest.1)

-- `*requested.begin()`; which id of the set is the first, nothing says.
abbrev first_id : List Bytes → Bytes
first_id [] = []
first_id (id ∷ _) = id

unfoldable pub choose_templates : CliOptions → List LogTemplate → Result (List LogTemplate)
unfolding select_templates
choose_templates o catalog =
    let chosen = select_templates o.sample_ids catalog in
    if o.all_samples
    then ok catalog
    else if is_empty chosen.1
    then ok chosen.0
    else throws (invalid_argument (codes "카탈로그에 없는 sample-id: " ++ first_id chosen.1))

-- The configuration that is started.
unfoldable pub run_config : CliOptions → List LogTemplate → Result GeneratorConfig
unfolding choose_templates
run_config o catalog = do
  templates ← choose_templates o catalog
  throw_if (is_empty templates) (invalid_argument (codes "실행할 샘플 로그가 없습니다"))
  throw_if
      (not (is_file o.config.endpoint.protocol)
        && (is_empty o.config.endpoint.host || o.config.endpoint.port == 0))
      (invalid_argument (codes "네트워크 프로토콜에는 --host와 --port가 필요합니다"))
  ok (record o.config { templates = templates })

-- What a round of the loop reads: the statistics, the clock and whether a signal has come.
pub record Reading : Type 0 where
  pub state : GeneratorState
  pub status_message : Bytes
  pub now : ℕ
  pub signal : Bool

abbrev pub is_stopped : GeneratorState → Bool
is_stopped stopped = true
is_stopped _ = false

-- The exit code, if the loop ends within these rounds. Times are in seconds.
unfoldable pub watch : ℕ → ℕ → Bool → List Reading → Option ℕ
watch started duration stop_requested [] = none
watch started duration stop_requested (r ∷ rs) =
    let asked = r.signal || (ltb 0 duration && leb duration (r.now - started)) in
    let rest = watch started duration (stop_requested || asked) rs in
    if is_failed r.state
    then some 1
    else if is_stopped r.state && stop_requested
    then some 0
    else if not (is_empty r.status_message) && is_stopped r.state
    then some 0
    else rest

-- The service has neither failed nor stopped.
abbrev pub IsLive : Reading → Type 0
IsLive r = (is_failed r.state ≡ false) × (is_stopped r.state ≡ false)

-- If the service is seen as failed, and in no round before that as failed or stopped, then the loop ends
-- with the exit code 1, whatever signals have come and whatever the clock and the duration say.
pub watch-failure :
    (started duration : ℕ) (stop_requested : Bool) (before after : List Reading) (r : Reading)
    → All IsLive before
    → is_failed r.state ≡ true
    → watch started duration stop_requested (before ++ (r ∷ after)) ≡ some 1
unfolding watch
watch-failure started duration stop_requested [] after r h f = rw f
watch-failure started duration stop_requested (b ∷ before) after r h f =
    rw (h.0.0, h.0.1)
      (ground (
        arith,
        watch-failure started duration
            (stop_requested || (b.signal || (ltb 0 duration && leb duration (b.now - started))))
            before after r h.1 f,
      ))

abbrev pub ids : List LogTemplate → List Bytes
ids [] = []
ids (item ∷ items) = item.id ∷ ids items

-- A requested id is that of the item, or is requested still.
member-without :
    (id x : Bytes) (xs : List Bytes)
    → member id xs ≡ true
    → (equal id x ≡ true) ⊎ (member id (without x xs) ≡ true)
unfolding member without
member-without id x [] h = cc
member-without id x (y ∷ ys) h = elim (Bool-cases (equal x y)) [
  | inl same ↦ rw same (ground (arith, (equal_iff x y).0 same, member-without id x ys))
  | inr other ↦ rw other (ground (arith, member-without id x ys))
]

select_templates-all :
    (id : Bytes) (requested : List Bytes) (items : List LogTemplate)
    → member id requested ≡ true
    → (member id (ids (select_templates requested items).0) ≡ true)
      ⊎ (member id (select_templates requested items).1 ≡ true)
unfolding select_templates
select_templates-all id requested [] h = inr h
select_templates-all id requested (item ∷ items) h = elim (member-without id item.id requested h) [
  | inl same ↦
      inl (first (subst (λ x. member x requested ≡ true) ((equal_iff id item.id).0 same) h) same)
  | inr kept ↦ later (select_templates-all id (without item.id requested) items kept)
]
  where
    rest : List LogTemplate × List Bytes
    rest = select_templates (without item.id requested) items

    first :
        member item.id requested ≡ true
        → equal id item.id ≡ true
        → member id (ids (if member item.id requested then item ∷ rest.0 else rest.0)) ≡ true
    first found same = unfold member in rw found (ground (arith, same))

    later :
        (member id (ids rest.0) ≡ true) ⊎ (member id rest.1 ≡ true)
        → (member id (ids (if member item.id requested then item ∷ rest.0 else rest.0)) ≡ true)
          ⊎ (member id rest.1 ≡ true)
    later (inr left) = inr left
    later (inl chosen) = inl (
        if-holds (λ (ts : List LogTemplate). member id (ids ts) ≡ true) (member item.id requested)
          (λ _. unfold member in ground (arith, chosen)) (λ _. chosen))

run_config-ok :
    (o : CliOptions) (catalog : List LogTemplate) (c : GeneratorConfig)
    → run_config o catalog ≡ ok c
    → choose_templates o catalog ≡ ok c.templates
unfolding run_config
run_config-ok o catalog c h = ground arith

choose_templates-ok :
    (o : CliOptions) (catalog ts : List LogTemplate)
    → o.all_samples ≡ false
    → choose_templates o catalog ≡ ok ts
    → (is_empty (select_templates o.sample_ids catalog).1 ≡ true)
      × ((select_templates o.sample_ids catalog).0 ≡ ts)
unfolding choose_templates
choose_templates-ok o catalog ts some_samples h = ground arith

no_member : (id : Bytes) (xs : List Bytes) → is_empty xs ≡ true → member id xs ≡ false
unfolding member
no_member id [] h = refl
no_member id (x ∷ xs) h = cc

-- If the samples are not all taken and a configuration is started, every id that was asked for is that
-- of one of its templates.
pub run_config-member :
    (o : CliOptions) (catalog : List LogTemplate) (c : GeneratorConfig) (id : Bytes)
    → o.all_samples ≡ false
    → run_config o catalog ≡ ok c
    → member id o.sample_ids ≡ true
    → member id (ids c.templates) ≡ true
run_config-member o catalog c id some_samples h asked =
    let (nothing, same) =
      choose_templates-ok o catalog c.templates some_samples (run_config-ok o catalog c h) in
    subst (λ ts. member id (ids ts) ≡ true) same
      (found nothing (select_templates-all id o.sample_ids catalog asked))
  where
    found :
        is_empty (select_templates o.sample_ids catalog).1 ≡ true
        → (member id (ids (select_templates o.sample_ids catalog).0) ≡ true)
          ⊎ (member id (select_templates o.sample_ids catalog).1 ≡ true)
        → member id (ids (select_templates o.sample_ids catalog).0) ≡ true
    found nothing (inl chosen) = chosen
    found nothing (inr left) =
        absurd
          (ground (arith, left, no_member id (select_templates o.sample_ids catalog).1 nothing))
