-- ===== src/SendEstimator/Runs.antt =====
-- Sequences of samples: a stall does not re-seed the estimate, a lasting change does.
use esphome_gps_pps_ntp_serv.Base.{
  ℕ, ◌+◌, ◌<◌, ◌≡◌, ◌≢◌, ◌⊎◌, List, [], ◌∷◌, arith, ℤ, pos, ◌≤ℤ◌, ◌<ℤ◌, ◌+ℤ◌, ◌-ℤ◌, +ℤ_parts,
  -ℤ_parts, eq_of_parts, div_trunc, inl, refl,
}
use esphome_gps_pps_ntp_serv.SendEstimator.{
  SendEstimator, LearnResult, reseeded, extend_run, consider_reseed, learn, min_ℤ, max_ℤ,
}
use esphome_gps_pps_ntp_serv.SendEstimator.Bounds.{AddLe}

-- The samples in order, each with its time; and how many of them re-seeded the estimate.
abbrev pub learn_all : SendEstimator → List (ℤ × ℤ) → SendEstimator
learn_all s [] = s
learn_all s ((a, now) ∷ rest) = learn_all (learn s a now).0 rest

abbrev pub one_if_reseeded : LearnResult → ℕ
one_if_reseeded reseeded = 1
one_if_reseeded _ = 0

abbrev pub reseeds : SendEstimator → List (ℤ × ℤ) → ℕ
reseeds s [] = 0
reseeds s ((a, now) ∷ rest) = one_if_reseeded (learn s a now).1 + reseeds (learn s a now).0 rest

-- Every sample is taken from `t0` on, and less than 3 s after it.
abbrev pub IsWithin : ℤ → List (ℤ × ℤ) → Type 0
IsWithin t0 [] = Unit
IsWithin t0 ((a, now) ∷ rest) = (t0 ≤ℤ now) × (now <ℤ t0 +ℤ pos 3000000) × IsWithin t0 rest

-- No run of rejects is open, or the open one began at `t0` or later.
abbrev StartsFrom : ℤ → SendEstimator → Type 0
StartsFrom t0 s = (s.reject_run ≡ 0) ⊎ (t0 ≤ℤ s.reject_first_us)

learn-StartsFrom :
    (t0 : ℤ) (s : SendEstimator) (a now : ℤ)
    → StartsFrom t0 s
    → t0 ≤ℤ now
    → now <ℤ t0 +ℤ pos 3000000
    → (one_if_reseeded (learn s a now).1 ≡ 0) × StartsFrom t0 (learn s a now).0
unfolding learn extend_run consider_reseed
learn-StartsFrom t0 s a now h lo hi =
    ground (arith, +ℤ_parts t0 (pos 3000000), -ℤ_parts now now, -ℤ_parts now s.reject_first_us)

-- However many samples a stall of less than 3 s gives, with whatever values: if no run of rejects
-- was open when it began, none of them re-seeds the estimate.
pub stall-reseeds :
    (t0 : ℤ) (s : SendEstimator) (samples : List (ℤ × ℤ))
    → s.reject_run ≡ 0
    → IsWithin t0 samples
    → reseeds s samples ≡ 0
stall-reseeds t0 s samples h w = from_run s samples (inl h) w
  where
    from_run :
        (s : SendEstimator) (samples : List (ℤ × ℤ))
        → StartsFrom t0 s
        → IsWithin t0 samples
        → reseeds s samples ≡ 0
    from_run s [] h w = refl
    from_run s ((a, now) ∷ rest) h w =
        let step = learn-StartsFrom t0 s a now h w.0 w.1 in
        omega (arith, step.0, from_run (learn s a now).0 rest step.1 w.2)

-- A run of `k` rejects, all of value `a`, the first at `t1`.
record IsRun (s : SendEstimator) (e a t1 : ℤ) (k : ℕ) : Type 0 where
  kept : s.estimate_us ≡ e
  counted : s.reject_run ≡ k
  least : s.reject_min ≡ a
  most : s.reject_max ≡ a
  first : s.reject_first_us ≡ t1

module _ (e a : ℤ) (seeded : e ≢ pos 0) (lo : pos 50 <ℤ a) (hi : a <ℤ pos 5000)
    (off : AddLe a 100 e ⊎ AddLe e 100 a) where
  begin-IsRun :
      (s : SendEstimator) (t : ℤ)
      → s.estimate_us ≡ e
      → s.reject_run ≡ 0
      → IsRun (learn s a t).0 e a t 1
  unfolding learn extend_run consider_reseed
  begin-IsRun s t he h = ground (arith, -ℤ_parts a s.estimate_us, eq_of_parts s.estimate_us (pos 0))

  extend :
      (s : SendEstimator) (t1 t : ℤ) (k : ℕ)
      → k < 2
      → IsRun s e a t1 (k + 1)
      → IsRun (learn s a t).0 e a t1 (k + 2)
  unfolding learn extend_run consider_reseed min_ℤ max_ℤ
  extend s t1 t k hk r =
      ground (arith, -ℤ_parts a s.estimate_us, -ℤ_parts a a, eq_of_parts s.estimate_us (pos 0))

  end_run :
      (s : SendEstimator) (t1 t : ℤ)
      → AddLe t1 3000000 t
      → IsRun s e a t1 3
      → ((learn s a t).1 ≡ reseeded) × ((learn s a t).0.estimate_us ≡ a)
  unfolding learn extend_run consider_reseed min_ℤ max_ℤ div_trunc
  end_run s t1 t long r = ground (
    arith,
    -ℤ_parts a s.estimate_us,
    -ℤ_parts a a,
    -ℤ_parts t t1,
    +ℤ_parts a (div_trunc (a -ℤ a) 2),
    eq_of_parts (a +ℤ div_trunc (a -ℤ a) 2) a,
    eq_of_parts s.estimate_us (pos 0),
  )

-- Four samples of a changed send path, all `a`, the last 3 s or more after the first: a seeded
-- estimator with no open run of rejects, 100 us or more off that delay, re-seeds its estimate to
-- `a` at the fourth, and moves it at none of the three before.
pub change-reseeds :
    (s : SendEstimator) (a t1 t2 t3 t4 : ℤ)
    → s.reject_run ≡ 0
    → s.estimate_us ≢ pos 0
    → pos 50 <ℤ a
    → a <ℤ pos 5000
    → AddLe a 100 s.estimate_us ⊎ AddLe s.estimate_us 100 a
    → AddLe t1 3000000 t4
    → let before = learn_all s ((a, t1) ∷ (a, t2) ∷ (a, t3) ∷ []) in
      (before.estimate_us ≡ s.estimate_us)
      × ((learn before a t4).1 ≡ reseeded)
      × ((learn before a t4).0.estimate_us ≡ a)
change-reseeds s a t1 t2 t3 t4 h e lo hi off long =
    let est : ℤ = s.estimate_us in
    let s1 : SendEstimator = (learn s a t1).0 in
    let s2 : SendEstimator = (learn s1 a t2).0 in
    let r1 = begin-IsRun est a e lo hi off s t1 refl h in
    let r2 = extend est a e lo hi off s1 t1 t2 0 (omega arith) r1 in
    let r3 = extend est a e lo hi off s2 t1 t3 1 (omega arith) r2 in
    let last = end_run est a e lo hi off (learn s2 a t3).0 t1 t4 long r3 in
    (r3.kept, last.0, last.1)
