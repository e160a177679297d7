-- ===== src/Mgmt/Admission/Memory.antt =====
-- What an admission promises, and that it is not withdrawn when there is more room.
use native.Mathlib.Nat.{mod-eq_of_lt}
use lemul.Prelude.{
  ℕ, suc, ◌*◌, ◌/◌, ◌%◌, ◌^◌, ◌<◌, ◌≡◌, ◌≢◌, refl, ap, Bool, true, arith, ltb, if_true,
}
use lemul.Prelude.Int.{pos, ◌≤ℤ◌, ◌*ℤ◌, quot, wrap64}
use lemul.Prelude.Dict.{string_key, eqb_iff}
use lemul.Mgmt.Rows.{Headroom}
use lemul.Mgmt.Admission.{
  admit_unlimited, admit_max_sessions, AdmissionPolicy, admit, by_count, required, by_memory,
  admits,
}

wrap64-small : (n : ℕ) → n < 2 ^ 63 → wrap64 (pos n) ≡ pos n
wrap64-small n h =
    let e : n % 2 ^ 64 ≡ n = mod-eq_of_lt (omega arith) in
    rw e (if_true {b = ltb n (2 ^ 63)} _ _ (ground arith))

-- What is needed is the floor at least, and the share at least, if the sizes are not absurd.
required-covers :
    (p : AdmissionPolicy) (report : Headroom) (l c : ℕ)
    → report.mem_limit_mb ≡ pos l
    → p.min_free_pct ≡ pos c
    → l * c < 2 ^ 63
    → (pos 768 ≤ℤ required p report) × (pos (l * c / 100) ≤ℤ required p report)
unfolding required
required-covers p report l c el ec b =
    let product : wrap64 (report.mem_limit_mb *ℤ p.min_free_pct) ≡ pos (l * c) =
      rw el (rw ec (wrap64-small (l * c) b)) in
    let share = ap (λ n. quot n 100) product in ground (arith, share)

by_memory-free :
    (p : AdmissionPolicy) (report : Headroom)
    → by_memory p report ≡ admit
    → required p report ≤ℤ report.mem_free_mb
unfolding by_memory
by_memory-free p report h = ground arith

-- A task that reports its memory limit, and reported lately, takes another session under the memory
-- policy only while it has 768 MB free and the percentage of its limit, rounded down; the
-- multiplication of the two does not overflow by the last hypothesis.
pub admits-room :
    (p : AdmissionPolicy) (report : Headroom) (l c : ℕ)
    → p.policy ≢ admit_unlimited
    → p.policy ≢ admit_max_sessions
    → report.mem_limit_mb ≡ pos (suc l)
    → p.min_free_pct ≡ pos c
    → suc l * c < 2 ^ 63
    → admits p report true true ≡ admit
    → (pos 768 ≤ℤ report.mem_free_mb) × (pos (suc l * c / 100) ≤ℤ report.mem_free_mb)
unfolding admits
admits-room p report l c u m el ec b h =
    let (floor, share) = required-covers p report (suc l) c el ec b in
    let enough : by_memory p report ≡ admit =
      ground (arith, eqb_iff p.policy admit_unlimited, eqb_iff p.policy admit_max_sessions) in
    let free = by_memory-free p report enough in (omega arith, omega arith)

module _ (p : AdmissionPolicy) (old new : Headroom) where
  by_count-monotone : new.sessions ≤ℤ old.sessions → by_count p old ≡ admit → by_count p new ≡ admit
  unfolding by_count
  by_count-monotone s h = ground arith

  required-same : new.mem_limit_mb ≡ old.mem_limit_mb → required p new ≡ required p old
  unfolding required
  required-same l = rw l refl

  by_memory-monotone :
      new.mem_limit_mb ≡ old.mem_limit_mb
      → old.mem_free_mb ≤ℤ new.mem_free_mb
      → by_memory p old ≡ admit
      → by_memory p new ≡ admit
  unfolding by_memory
  by_memory-monotone l f h = ground (arith, required-same l, by_memory-free p old h)

-- Admission is monotone: a workspace that is admitted to with one report is also admitted to with one
-- that has the same limit, no less free memory and no more sessions.
admits-monotone :
    (p : AdmissionPolicy) (old new : Headroom) (have is_fresh : Bool)
    → new.mem_limit_mb ≡ old.mem_limit_mb
    → old.mem_free_mb ≤ℤ new.mem_free_mb
    → new.sessions ≤ℤ old.sessions
    → admits p old have is_fresh ≡ admit
    → admits p new have is_fresh ≡ admit
unfolding admits
admits-monotone p old new have is_fresh l f s h =
    ground (arith, by_count-monotone p old new s, by_memory-monotone p old new l f)
