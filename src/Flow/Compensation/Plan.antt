-- ===== src/Flow/Compensation/Plan.antt =====
-- What a compensation plan holds, read off the log.
use mathlib.Core.Path.{subst}
use moonbit.Prelude.{
  Bool-cases, ◌≡◌, refl, sym, ap, ◌∙◌, ◌↔◌, String, Bool, true, false, inl, inr, Option, none, some,
  List, [], ◌∷◌, ◌++◌, All, arith, str_eq, str_eq_iff, Option-cases, Holds, if◌then◌else◌,
}
use moonbit.Prelude.Int.{ℤ}
use moonbit.Prelude.Dict.{Dict, get, keys}
use moonbit.Flow.Types.{WorkflowId, failed}
use moonbit.Flow.Event.{WorkflowEvent, workflow_failed}
use moonbit.Flow.Snapshot.{WorkflowSnapshot}
use moonbit.Flow.Replay.Latest.{latest, output_of, step_of, status_of, first_status, replay-Reads}
use moonbit.Flow.Storage.{Storage, StorageLaws}
use text.Mathlib.TextPositions.{eq_refl}
use moonbit.Flow.Query.{load_events_sync}
use moonbit.Flow.Query.Ended.{latest-snoc}
use moonbit.Flow.Compensation.{
  CompensationPlan, plan_from, plan_of, plan_in, build_compensation_plan,
}

abbrev pub listed : String → List String → Bool
listed c [] = false
listed c (d ∷ ds) = if str_eq d c then true else listed c ds

listed-append : (c : String) (xs ys : List String) → listed c xs ≡ true → listed c (xs ++ ys) ≡ true
listed-append c [] ys h = cc
listed-append c (x ∷ xs) ys h = ground (arith, listed-append c xs ys)

listed-snoc : (c : String) (xs : List String) → listed c (xs ++ c ∷ []) ≡ true
listed-snoc c [] = ground (arith, str_eq_iff c c)
listed-snoc c (x ∷ xs) = ground (arith, listed-snoc c xs)

listed_behind :
    (n k : String) (names : List String)
    → str_eq n k ≡ false
    → listed k (n ∷ names) ≡ true
    → listed k names ≡ true
listed_behind n k names other l = ground arith

All-snoc :
    (P : String → Type 0) (xs : List String) (x : String) → All P xs → P x → All P (xs ++ x ∷ [])
All-snoc P [] x h p = (p, tt)
All-snoc P (y ∷ xs) x h p = (h.0, All-snoc P xs x h.1 p)

module _ (map : Dict String) where
  plan_from-listed :
      (names steps : List String) (c : String)
      → listed c steps ≡ true
      → listed c (plan_from map names steps) ≡ true
  unfolding plan_from
  plan_from-listed [] steps c h = h
  plan_from-listed (n ∷ names) steps c h = elim (Option-cases (get n map)) [
    | inl none_there ↦ rw (none_there, plan_from) (plan_from-listed names steps c h)
    | inr (d, there) ↦
        rw (there, plan_from)
          (plan_from-listed names (steps ++ d ∷ []) c (listed-append c steps (d ∷ []) h))
  ]

  plan_from_complete :
      (names steps : List String) (k c : String)
      → listed k names ≡ true
      → get k map ≡ some c
      → listed c (plan_from map names steps) ≡ true
  unfolding plan_from
  plan_from_complete [] steps k c l g = cc
  plan_from_complete (n ∷ names) steps k c l g = elim (Bool-cases (str_eq n k)) [
    | inl same ↦
        rw (ap (λ j. get j map) ((str_eq_iff n k).0 same) ∙ g, plan_from)
          (plan_from-listed names (steps ++ c ∷ []) c (listed-snoc c steps))
    | inr other ↦
        let l' = listed_behind n k names other l in
        elim (Option-cases (get n map)) [
          | inl none_there ↦ rw (none_there, plan_from) (plan_from_complete names steps k c l' g)
          | inr (d, there) ↦
              rw (there, plan_from) (plan_from_complete names (steps ++ d ∷ []) k c l' g)
        ]
  ]

  plan_from_sound :
      (P : String → Type 0) (names steps : List String)
      → All P steps
      → All (λ n. Holds P (get n map)) names
      → All P (plan_from map names steps)
  unfolding plan_from
  plan_from_sound P [] steps h g = h
  plan_from_sound P (n ∷ names) steps h g = elim (Option-cases (get n map)) [
    | inl none_there ↦ rw (none_there, plan_from) (plan_from_sound P names steps h g.1)
    | inr (d, there) ↦
        rw (there, plan_from)
          (plan_from_sound P names (steps ++ d ∷ [])
            (All-snoc P steps d h (subst (λ (o : Option String). Holds P o) there g.0)) g.1)
  ]

-- The keys of a map are those under which something is found.
keys-listed :
    {A : Type 0} (k : String) (m : Dict A) (v : A) → get k m ≡ some v → listed k (keys m) ≡ true
unfolding get keys
keys-listed k [] v h = cc
keys-listed k ((j, w) ∷ m) v h = ground (arith, keys-listed k m v)

Found : {A : Type 0} → Dict A → String → Type 0
Found {A} m k = (v : A) × (get k m ≡ some v)

Found-cons :
    {A : Type 0} (j : String) (w : A) (m : Dict A) (ks : List String)
    → All (Found m) ks
    → All (Found ((j, w) ∷ m)) ks
unfolding Found get
Found-cons j w m [] h = tt
Found-cons j w m (k ∷ ks) ((v, h), hs) = (
  elim (Bool-cases (str_eq j k)) [ inl same ↦ (w, rw same refl) | inr other ↦ (v, rw other h) ],
  Found-cons j w m ks hs,
)

keys-Found : {A : Type 0} (m : Dict A) → All (Found m) (keys m)
unfolding keys get Found
keys-Found [] = tt
keys-Found ((j, w) ∷ m) = ((w, rw eq_refl refl), Found-cons j w m (keys m) (keys-Found m))

All-listed :
    (P : String → Type 0) (c : String) (xs : List String) → All P xs → listed c xs ≡ true → P c
All-listed P c [] h l = cc
All-listed P c (x ∷ xs) h l = elim (Bool-cases (str_eq x c)) [
  | inl same ↦ subst P ((str_eq_iff x c).0 same) h.0
  | inr other ↦ All-listed P c xs h.1 (listed_behind x c xs other l)
]

module _ {J : Type 0} where
  -- A completed step of a log whose compensation is `c`.
  abbrev pub CompensatedBy : Dict String → List (WorkflowEvent J) → String → Type 0
  CompensatedBy map es c =
      (k : String) × (o : J) × (latest (output_of k) none es ≡ some o) × (get k map ≡ some c)

  sound_names :
      (map : Dict String) (m : Dict J) (es : List (WorkflowEvent J)) (ks : List String)
      → ((k : String) → get k m ≡ latest (output_of k) none es)
      → All (Found m) ks
      → All (λ n. Holds (CompensatedBy map es) (get n map)) ks
  unfolding Found
  sound_names map m es [] r h = tt
  sound_names map m es (k ∷ ks) r ((o, h), hs) = (
    elim (Option-cases (get k map)) [
      | inl none_there ↦ rw none_there tt
      | inr (c, there) ↦ rw there (k, o, sym (r k) ∙ h, there)
    ],
    sound_names map m es ks r hs,
  )

  -- The names that are planned out of completed steps.
  planned :
      (map : Dict String) (m : Dict J) (es : List (WorkflowEvent J)) (c : String)
      → ((k : String) → get k m ≡ latest (output_of k) none es)
      → (listed c (plan_from map (keys m) []) ≡ true) ↔ CompensatedBy map es c
  planned map m es c r = (
    λ l.
        All-listed (CompensatedBy map es) c (plan_from map (keys m) [])
          (plan_from_sound map (CompensatedBy map es) (keys m) [] tt
            (sound_names map m es (keys m) r (keys-Found m)))
          l,
    λ (k, o, done, there).
        plan_from_complete map (keys m) [] k c (keys-listed k m o (r k ∙ done)) there,
  )

module _ {J S : Type 0} {st : Storage J S} {log : String → S → List (WorkflowEvent J)}
    {snap : String → S → Option (WorkflowSnapshot J)} (laws : StorageLaws st log snap) where
  -- Of a workflow whose log ends with its failure there is a plan. It holds the compensation of each
  -- step that has completed, by the log, and that has one, and nothing else; the step that it calls
  -- failed is the one started last.
  pub build_compensation_plan_lem :
      (id wid : WorkflowId) (map : Dict String) (e : WorkflowEvent J) (es : List (WorkflowEvent J))
      (msg : String) (ts : ℤ) (s : S)
      → log id.value s ≡ e ∷ es ++ workflow_failed wid msg ts ∷ []
      → (plan : CompensationPlan) × ((build_compensation_plan st id map s).0 ≡ some plan)
        × (plan.failed_step ≡ latest step_of "" (es ++ workflow_failed wid msg ts ∷ []))
        × ((c : String)
            → (listed c plan.steps_to_compensate ≡ true)
              ↔ CompensatedBy map (es ++ workflow_failed wid msg ts ∷ []) c)
  unfolding build_compensation_plan load_events_sync plan_in plan_of
  build_compensation_plan_lem id wid map e es msg ts s h =
      let (t, p, r) = replay-Reads e (es ++ workflow_failed wid msg ts ∷ []) in
      (
        record {
          workflow_id = id;
          failed_step = t.current_step;
          steps_to_compensate = plan_from map (keys t.completed_steps) [];
        },
        rw
            (
              laws.load_ok id s,
              h,
              p,
              r.status,
              latest-snoc status_of (first_status e) failed es (workflow_failed wid msg ts) refl,
            )
            refl,
        r.step,
        λ c. planned map t.completed_steps (es ++ workflow_failed wid msg ts ∷ []) c r.outputs,
      )
