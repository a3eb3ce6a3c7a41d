-- ===== src/Broadcast/Drained.antt =====
-- The queue of broadcasts (apps/worker/jobs/broadcast.py) is worked off.
use marzbot.Base.{
  ◌≡◌, refl, ◌∙◌, sym, ap, true, false, some, List, [], ◌∷◌, ◌==◌, ==_iff, All, Bool-cases, inl,
  inr,
}
use mathlib.Core.Option.{some-injective}
use mathlib.Core.Path.{subst}
use marzbot.Base.Table.{find, select}
use marzbot.Models.{Uuid, BroadcastJob, finished}
use marzbot.Session.{Session, Outside, ok}
use marzbot.Broadcast.{job_has_id, is_queued, process_job, process_jobs, process_broadcast_queue}
use marzbot.Broadcast.Progress.{Elsewhere, process_job-IsFinished}

-- The job of the id is there, and finished.
abbrev pub HasFinished : Session → Uuid → Type 0
HasFinished t i =
    (k : BroadcastJob) × (find (job_has_id i) t.broadcasts ≡ some k) × (k.status ≡ finished)

abbrev HasJob : Session → Uuid → Type 0
HasJob t i = (k : BroadcastJob) × (find (job_has_id i) t.broadcasts ≡ some k)

abbrev JobIsThere : Session → BroadcastJob → Type 0
JobIsThere t j = HasJob t j.id

abbrev JobIsFinished : Session → BroadcastJob → Type 0
JobIsFinished t j = HasFinished t j.id

module _ (o : Outside) where
  Advances : Session → Session → Type 0
  Advances s t =
      ((i : Uuid) → HasJob s i → HasJob t i) × ((i : Uuid) → HasFinished s i → HasFinished t i)

  false-true : false ≡ true → ⊥
  false-true e = cc

  advance : (s t : Session) (i : Uuid) → HasFinished t i → Elsewhere i s t → Advances s t
  unfolding Advances
  advance s t i (k, there, done) kept = (
    λ m (j, e). elim (Bool-cases (m == i)) [
      | inl same ↦ (k, ap (λ x. find (job_has_id x) t.broadcasts) ((==_iff m i).0 same) ∙ there)
      | inr other ↦ (j, kept m (λ d. false-true (sym other ∙ (==_iff m i).1 d)) ∙ e)
    ],
    λ m (j, e, h). elim (Bool-cases (m == i)) [
      | inl same ↦
          (k, ap (λ x. find (job_has_id x) t.broadcasts) ((==_iff m i).0 same) ∙ there, done)
      | inr other ↦ (j, kept m (λ d. false-true (sym other ∙ (==_iff m i).1 d)) ∙ e, h)
    ],
  )

  All-finished :
      (t v : Session)
      → ((i : Uuid) → HasFinished t i → HasFinished v i)
      → (js : List BroadcastJob) → All (JobIsFinished t) js
      → All (JobIsFinished v) js
  All-finished t v h [] all = tt
  All-finished t v h (j ∷ js) all = (h j.id all.0, All-finished t v h js all.1)

  process_job-Advances :
      (j : BroadcastJob) (s : Session)
      → HasJob s j.id
      → (t : Session) × (process_job o j s ≡ ok tt t) × HasFinished t j.id × Advances s t
  unfolding Advances
  process_job-Advances j s (k₀, e) =
      let (k, t, went, there, done, kept) =
        process_job-IsFinished o false j k₀ s (λ d. absurd (false-true d)) e in
      (t, went, (k, there, done.0), advance s t j.id (k, there, done.0) kept)

  process_jobs-Advances :
      (js : List BroadcastJob) (s : Session)
      → All (JobIsThere s) js
      → (t : Session) × (process_jobs o js s ≡ ok tt t) × All (JobIsFinished t) js × Advances s t
  unfolding Advances process_jobs
  process_jobs-Advances [] s all = (s, refl, tt, ((λ i h. h), λ i h. h))
  process_jobs-Advances (j ∷ js) s all =
      let (t, went, done, on) = process_jobs-Advances js s all.1 in
      let (v, then, last, further) = process_job-Advances j t (on.0 j.id all.0) in
      (
        v,
        rw went then,
        (last, All-finished t v further.1 js done),
        ((λ i h. further.0 i (on.0 i h)), λ i h. further.1 i (on.1 i h)),
      )

  selected-there :
      (s : Session) (xs : List BroadcastJob)
      → ((i : Uuid) (k : BroadcastJob) → find (job_has_id i) xs ≡ some k → HasJob s i)
      → All (JobIsThere s) (select (λ j. is_queued j.status) xs)
  selected-there s [] h = tt
  selected-there s (x ∷ xs) h =
      let rest = selected-there s xs (λ i k e. elim (Bool-cases (x.id == i)) [
        | inl same ↦ h i x (rw same refl)
        | inr other ↦ h i k (rw other e)
      ]) in
      elim (Bool-cases (is_queued x.status)) [
        | inl q ↦ rw q (h x.id x (rw ((==_iff x.id x.id).1 refl) refl), rest)
        | inr q ↦ rw q rest
      ]

  finished-selected :
      (t : Session) (i : Uuid) (xs : List BroadcastJob) (j : BroadcastJob)
      → All (JobIsFinished t) (select (λ j. is_queued j.status) xs)
      → find (job_has_id i) xs ≡ some j
      → is_queued j.status ≡ true
      → HasFinished t i
  finished-selected t i [] j all e q = cc
  finished-selected t i (x ∷ xs) j all e q = elim (Bool-cases (x.id == i)) [
    | inl same ↦
        let itself : x ≡ j = some-injective _ _ (rw same at e) in
        let queued : is_queued x.status ≡ true = ap (λ k. is_queued k.status) itself ∙ q in
        subst (HasFinished t) ((==_iff x.id i).0 same) (rw queued at all).0
    | inr other ↦ elim (Bool-cases (is_queued x.status)) [
      | inl d ↦ finished-selected t i xs j (rw d at all).1 (rw other at e) q
      | inr d ↦ finished-selected t i xs j (rw d at all) (rw other at e) q
    ]
  ]

  -- Every broadcast that is queued when the job of the worker starts is finished when it ends,
  -- and the job ends without an exception, whatever Telegram answers.
  pub process_broadcast_queue-finishes :
      (s : Session)
      → (t : Session) × (process_broadcast_queue o s ≡ ok tt t)
        × ((i : Uuid) (j : BroadcastJob)
            → find (job_has_id i) s.broadcasts ≡ some j
            → is_queued j.status ≡ true
            → HasFinished t i)
  unfolding process_broadcast_queue
  process_broadcast_queue-finishes s =
      let jobs = select (λ j. is_queued j.status) s.broadcasts in
      let (t, went, done, on) =
        process_jobs-Advances jobs s (selected-there s s.broadcasts (λ i k e. (k, e))) in
      (t, went, λ i j e q. finished-selected t i s.broadcasts j done e q)
