-- ===== src/TxPatch/Checksum.antt =====
-- The incremental checksum of ntp_tx_patch.h, against the one's-complement sum that a receiver makes.
use esphome_gps_pps_ntp_serv.Base.{
  ℕ, zero, suc, ◌+◌, ◌*◌, ◌/◌, ◌%◌, ◌≤◌, ◌<◌, ◌≡◌, refl, List, [], ◌∷◌, arith, ◌==◌, if◌then◌else◌,
}
use esphome_gps_pps_ntp_serv.TxPatch.{not16, add_words, fold_carry, udp_csum_update}

-- Two fields of the same even length, made of bytes.
abbrev pub SameWords : List ℕ → List ℕ → Type 0
SameWords (a ∷ b ∷ old) (c ∷ d ∷ new) =
    (a < 256) × (b < 256) × (c < 256) × (d < 256) × SameWords old new
SameWords [] [] = Unit
SameWords _ _ = ⊥

-- The sum of the big-endian 16-bit words of a field, and their number.
abbrev pub words_sum : List ℕ → ℕ
words_sum (a ∷ b ∷ rest) = a * 256 + b + words_sum rest
words_sum _ = 0

abbrev pub words_count : List ℕ → ℕ
words_count (a ∷ b ∷ rest) = 1 + words_count rest
words_count _ = 0

add_words-sum :
    (sum : ℕ) (old new : List ℕ)
    → SameWords old new
    → add_words sum old new + words_sum old ≡ sum + words_sum new + 65535 * words_count old
unfolding add_words
add_words-sum sum (a ∷ b ∷ old) (c ∷ d ∷ new) h =
    omega (arith, add_words-sum (sum + not16 (a * 256 + b) + (c * 256 + d)) old new h.4)
add_words-sum sum [] [] h = omega arith
add_words-sum sum [] (c ∷ new) h = absurd h
add_words-sum sum (a ∷ []) [] h = absurd h
add_words-sum sum (a ∷ []) (c ∷ new) h = absurd h
add_words-sum sum (a ∷ b ∷ old) [] h = absurd h
add_words-sum sum (a ∷ b ∷ old) (c ∷ []) h = absurd h

-- Folding keeps the value modulo 65535, and a sum that is not zero stays so.
fold_carry-mod :
    (fuel sum : ℕ)
    → (fold_carry fuel sum % 65535 ≡ sum % 65535) × (0 < sum → 0 < fold_carry fuel sum)
unfolding fold_carry
fold_carry-mod zero sum = (refl, λ h. h)
fold_carry-mod (suc fuel) sum = ground (arith, fold_carry-mod fuel (sum % 65536 + sum / 65536))

-- Three rounds are enough for any sum below 2^20: then the loop's exit test holds.
pub fold_carry_done : (sum : ℕ) → sum < 1048576 → fold_carry 3 sum < 65536
unfolding fold_carry
fold_carry_done sum h = ground arith

words_sum-bounds :
    (old new : List ℕ)
    → SameWords old new
    → (words_sum old ≤ 65535 * words_count old) × (words_sum new ≤ 65535 * words_count old)
words_sum-bounds (a ∷ b ∷ old) (c ∷ d ∷ new) h = omega (arith, words_sum-bounds old new h.4)
words_sum-bounds [] [] h = omega arith
words_sum-bounds [] (c ∷ new) h = absurd h
words_sum-bounds (a ∷ []) [] h = absurd h
words_sum-bounds (a ∷ []) (c ∷ new) h = absurd h
words_sum-bounds (a ∷ b ∷ old) [] h = absurd h
words_sum-bounds (a ∷ b ∷ old) (c ∷ []) h = absurd h

total-valid :
    (rest csum : ℕ) (old8 new8 : List ℕ)
    → csum < 65536
    → SameWords old8 new8
    → words_count old8 ≡ 4
    → (rest + words_sum old8 + csum) % 65535 ≡ 0
    → let total = add_words (not16 csum) old8 new8 in
      (total < 1048576) × (total % 65535 ≡ (rest + words_sum new8) % 65535)
total-valid rest csum old8 new8 hc same four valid =
    let bound = words_sum-bounds old8 new8 same in
    let sum = add_words-sum (not16 csum) old8 new8 same in (omega arith, omega arith)

-- The last step: the folded sum is complemented, and 0 is sent as 65535.
finish-valid :
    (t f r : ℕ)
    → f < 65536
    → f % 65535 ≡ t % 65535
    → t % 65535 ≡ r % 65535
    → let c = if not16 f == 0 then 65535 else not16 f in
      ((r + c) % 65535 ≡ 0) × (0 < c) × (c < 65536)
finish-valid t f r hf e e' = ground arith

-- The checksum after a T3 field of four words is replaced. If the old checksum made the datagram's
-- one's-complement sum come out as zero modulo 65535 (`rest` is the sum of all its other words),
-- then the updated one does so for the datagram with the new field; and the updated checksum is a
-- 16-bit word other than 0, which on the wire would mean that there is none.
pub udp_csum_update_valid :
    (rest csum : ℕ) (old8 new8 : List ℕ)
    → csum < 65536
    → SameWords old8 new8
    → words_count old8 ≡ 4
    → (rest + words_sum old8 + csum) % 65535 ≡ 0
    → let csum' = udp_csum_update csum old8 new8 in
      ((rest + words_sum new8 + csum') % 65535 ≡ 0) × (0 < csum') × (csum' < 65536)
unfolding udp_csum_update
udp_csum_update_valid rest csum old8 new8 hc same four valid =
    let total : ℕ = add_words (not16 csum) old8 new8 in
    let sums = total-valid rest csum old8 new8 hc same four valid in
    finish-valid total (fold_carry 3 total) (rest + words_sum new8) (fold_carry_done total sums.0)
      (fold_carry-mod 3 total).0 sums.1
