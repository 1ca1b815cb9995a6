-- ===== src/Train/Jobs.antt =====
-- The background jobs of train_speed_scheduler.go, over histories of Apply, CancelTrain and CancelAll.
use bigfred.Base.{
  ℕ, ◌≡◌, ◌≢◌, ◌⊎◌, refl, sym, ap, ◌∙◌, Bool, true, false, not, ◌&&◌, String, none, some, List, [],
  ◌∷◌, Map, ◌==◌, nat_key, string_key, if◌then◌else◌, inl, inr, arith, All, lookup, erase,
  lookup-erase, beq_ne, beq_refl, beq_eq, Bool-cases, Option-cases,
}
use bigfred.Train.Scheduler.{
  TrainMemberSetSpeed, SpeedCommand, Jobs, Background, TrainSpeedScheduler, cancel_context,
  cancel_train, cancel_all, apply_train,
}

-- The jobs of a train that run and are not cancelled.
unfoldable pub live : String → List Background → List Jobs
live train [] = []
live train (b ∷ bs) =
    let rest = live train bs in if b.train == train && not b.cancelled then b.jobs ∷ rest else rest

-- What is not cancelled can be: its train has its cancel function.
abbrev IsCancellable : Map String ℕ → Background → Type 0
IsCancellable pending b = (b.cancelled ≡ true) ⊎ (lookup b.train pending ≡ some b.context)

abbrev IsRegistered : TrainSpeedScheduler → Type 0
IsRegistered s = All (IsCancellable s.pending) s.started

-- Once the context of a train is cancelled, nothing of the train runs.
live-cancel_context :
    (train : String) (context : ℕ) (pending : Map String ℕ) (bs : List Background)
    → lookup train pending ≡ some context
    → All (IsCancellable pending) bs
    → live train (cancel_context train context bs) ≡ []
unfolding live cancel_context
live-cancel_context train context pending [] e h = refl
live-cancel_context train context pending (b ∷ bs) e (c, h) =
    let rest = live-cancel_context train context pending bs e h in
    elim (Bool-cases (b.train == train)) [
      | inr p ↦ ground (arith, p, rest)
      | inl p ↦
          let same : lookup b.train pending ≡ some context =
            ap (λ t. lookup t pending) (beq_eq b.train train p) ∙ e in
          ground (arith, p, c, same, rest, beq_refl context)
    ]

live-unregistered :
    (train : String) (pending : Map String ℕ) (bs : List Background)
    → lookup train pending ≡ none
    → All (IsCancellable pending) bs
    → live train bs ≡ []
unfolding live
live-unregistered train pending [] e h = refl
live-unregistered train pending (b ∷ bs) e (c, h) =
    let rest = live-unregistered train pending bs e h in
    elim (Bool-cases (b.train == train)) [
      | inr p ↦ ground (arith, p, rest)
      | inl p ↦
          let same : lookup b.train pending ≡ none =
            ap (λ t. lookup t pending) (beq_eq b.train train p) ∙ e in
          ground (arith, p, c, same, rest)
    ]

cancel_context-IsCancellable :
    (train : String) (context : ℕ) (pending : Map String ℕ) (bs : List Background)
    → lookup train pending ≡ some context
    → All (IsCancellable pending) bs
    → All (IsCancellable (erase train pending)) (cancel_context train context bs)
unfolding cancel_context
cancel_context-IsCancellable train context pending [] e h = tt
cancel_context-IsCancellable train context pending (b ∷ bs) e (c, h) = (
  elim (Bool-cases (b.train == train)) [
    | inl p ↦
        let same : lookup b.train pending ≡ some context =
          ap (λ t. lookup t pending) (beq_eq b.train train p) ∙ e in
        ground (arith, p, c, same, beq_refl context)
    | inr p ↦
        let off : (train == b.train) ≡ false =
          beq_ne train b.train (λ q. beq_false b.train train p (sym q)) in
        ground (arith, p, c, off, lookup-erase b.train train pending)
  ],
  cancel_context-IsCancellable train context pending bs e h,
)
  where
    beq_false : (x y : String) → (x == y) ≡ false → x ≢ y
    beq_false x y p q = let never = rw (q, beq_refl y) at p in cc

-- What CancelTrain leaves: nothing of the train runs, and the other trains are as before.
cancelled :
    (train : String) (s : TrainSpeedScheduler)
    → IsRegistered s
    → IsRegistered (cancel_train train s)
      × (lookup train (cancel_train train s).pending ≡ none)
      × (live train (cancel_train train s).started ≡ [])
unfolding cancel_train
cancelled train s h = elim (Option-cases (lookup train s.pending)) [
  | inl e ↦ rw (e, cancel_train) (h, e, live-unregistered train s.pending s.started e h)
  | inr (context, e) ↦
      rw (e, cancel_train)
        (
          cancel_context-IsCancellable train context s.pending s.started e h,
          ground (arith, lookup-erase train train s.pending, beq_refl train),
          live-cancel_context train context s.pending s.started e h,
        )
]

-- A call of the scheduler.
pub data SchedulerCall : Type 0 where
  apply_call : (SpeedCommand → Bool) → String → ℕ → Bool → List TrainMemberSetSpeed → SchedulerCall
  cancel_call : String → SchedulerCall
  cancel_all_call : SchedulerCall

unfoldable pub scheduler_call : SchedulerCall → TrainSpeedScheduler → TrainSpeedScheduler
scheduler_call (SchedulerCall.apply_call apply train command_speed at_start members) s =
    (apply_train apply train command_speed at_start members s).0
scheduler_call (SchedulerCall.cancel_call train) s = cancel_train train s
scheduler_call SchedulerCall.cancel_all_call s = cancel_all s

unfoldable pub scheduler_run : List SchedulerCall → TrainSpeedScheduler → TrainSpeedScheduler
scheduler_run [] s = s
scheduler_run (c ∷ cs) s = scheduler_run cs (scheduler_call c s)
