-- ===== src/Process/Shutdown.antt =====
-- stopProcess: stdin is closed already, then SIGTERM, then SIGKILL, each with a bounded wait. An exit
-- is the time after which cmd.Wait returns in that phase; nothing means that it does not.
use fi_mcp_kit.Base.{
  ℕ, ◌+◌, ◌≤◌, ◌≡◌, refl, Bool, true, false, Option, none, some, List, [], ◌∷◌, arith, ltb, leb,
  not, sym, inl, inr, if◌then◌else◌, Bool-cases,
}

pub data Signal : Type 0 where
  sigterm sigkill : Signal

pub record Ending : Type 0 where
  pub signals : List Signal
  pub elapsed : ℕ

-- `select { case <-done: … case <-time.After(wait): }`
abbrev pub waited : ℕ → Option ℕ → ℕ
waited wait none = wait
waited wait (some exit) = if ltb exit wait then exit else wait

abbrev pub exits : ℕ → Option ℕ → Bool
exits wait none = false
exits wait (some exit) = ltb exit wait

module _ (sigterm_wait sigkill_grace post_kill_wait : ℕ) where
  unfoldable pub stop_process : Option ℕ → Option ℕ → Option ℕ → Ending
  stop_process by_eof by_term by_kill =
      if exits sigterm_wait by_eof
      then record { signals = []; elapsed = waited sigterm_wait by_eof }
      else if exits sigkill_grace by_term
      then record { signals = sigterm ∷ []; elapsed = sigterm_wait + waited sigkill_grace by_term }
      else record {
        signals = sigterm ∷ sigkill ∷ [];
        elapsed = sigterm_wait + sigkill_grace + waited post_kill_wait by_kill;
      }

  waited_le : (w : ℕ) (e : Option ℕ) → waited w e ≤ w
  waited_le w none = omega arith
  waited_le w (some e) = ground arith

  -- A process that leaves by itself before a wait is over.
  abbrev pub leaves_within : ℕ → Option ℕ → Bool
  leaves_within wait none = false
  leaves_within wait (some exit) = not (leb wait exit)

  -- The signals that a process is owed, and the time it is given before the last of them.
  abbrev pub owed : Bool → Bool → List Signal × ℕ
  owed true by_term = ([], 0)
  owed false true = (sigterm ∷ [], sigterm_wait)
  owed false false = (sigterm ∷ sigkill ∷ [], sigterm_wait + sigkill_grace)

  -- Signals and times of a shutdown.
  abbrev pub IsBounded : Option ℕ → Option ℕ → Ending → Type 0
  IsBounded by_eof by_term e =
      let (signals, given) =
        owed (leaves_within sigterm_wait by_eof) (leaves_within sigkill_grace by_term) in
      (e.elapsed ≤ sigterm_wait + sigkill_grace + post_kill_wait)
      × (given ≤ e.elapsed)
      × (e.signals ≡ signals)

  same_exit : (w : ℕ) (e : Option ℕ) → exits w e ≡ leaves_within w e
  same_exit w none = refl
  same_exit w (some exit) = ground arith

  -- stopProcess returns within the sum of its three waits, whatever the process does. A process that
  -- leaves in the first wait, when its stdin is closed, gets no signal; one that outlives it and leaves
  -- in the grace gets SIGTERM only, behind the first wait; one that outlives both gets SIGTERM and then
  -- SIGKILL, and not before both waits are over.
  pub stop_process-IsBounded :
      (by_eof by_term by_kill : Option ℕ)
      → IsBounded by_eof by_term (stop_process by_eof by_term by_kill)
  unfolding stop_process
  stop_process-IsBounded by_eof by_term by_kill =
      let eof = same_exit sigterm_wait by_eof in
      let term = same_exit sigkill_grace by_term in
      let first = waited_le sigterm_wait by_eof in
      let second = waited_le sigkill_grace by_term in
      let third = waited_le post_kill_wait by_kill in
      elim (Bool-cases (exits sigterm_wait by_eof)) [
        | inl a ↦ rw (sym eof, a) (omega (arith, first), omega arith, refl)
        | inr a ↦ elim (Bool-cases (exits sigkill_grace by_term)) [
          | inl b ↦ rw (sym eof, a, sym term, b) (omega (arith, second), omega arith, refl)
          | inr b ↦ rw (sym eof, a, sym term, b) (omega (arith, third), omega arith, refl)
        ]
      ]
