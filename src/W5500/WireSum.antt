-- ===== src/W5500/WireSum.antt =====
-- The one's-complement sum over the 16-bit words of a range of a frame's bytes, and what an update of
-- the words of T3 and of the checksum makes of it.
use esphome_gps_pps_ntp_serv.Base.{
  ℕ, zero, suc, ◌+◌, ◌-◌, ◌*◌, ◌%◌, ◌≤◌, ◌<◌, ◌≡◌, refl, ap, sym, List, [], ◌∷◌, length, get_or,
  arith,
}
use mathlib.Core.Path.{◌∙◌}
use native.Mathlib.Nat.{add_assoc}
use esphome_gps_pps_ntp_serv.TxPatch.Checksum.{
  SameWords, words_sum, words_count, udp_csum_update_valid,
}
use esphome_gps_pps_ntp_serv.TxPatch.{udp_csum_update}

-- `n` big-endian words from byte `off` on.
unfoldable pub word_sum : (ℕ → ℕ) → ℕ → ℕ → ℕ
word_sum f off zero = 0
word_sum f off (suc n) = f off * 256 + f (off + 1) + word_sum f (off + 2) n

move : (f : ℕ → ℕ) (a b n : ℕ) → a ≡ b → word_sum f a n ≡ word_sum f b n
move f a b n e = ap (λ k. word_sum f k n) e

pub word_sum-split :
    (f : ℕ → ℕ) (off a b n : ℕ)
    → n ≡ a + b
    → word_sum f off n ≡ word_sum f off a + word_sum f (off + 2 * a) b
unfolding word_sum
word_sum-split f off zero b n e =
    let same : n ≡ b = omega (arith, e) in
    ap (word_sum f off) same ∙ omega (arith, move f off (off + 2 * 0) b (omega arith))
word_sum-split f off (suc a) b zero e = absurd (omega arith)
word_sum-split f off (suc a) b (suc n) e = omega (
  arith,
  word_sum-split f (off + 2) a b n (omega arith),
  move f (off + 2 + 2 * a) (off + 2 * suc a) b (omega arith),
)

pub word_sum-cong :
    (f g : ℕ → ℕ) (off n : ℕ)
    → ((i : ℕ) → off ≤ i → i < off + 2 * n → f i ≡ g i)
    → word_sum f off n ≡ word_sum g off n
unfolding word_sum
word_sum-cong f g off zero h = refl
word_sum-cong f g off (suc n) h = omega (
  arith,
  h off (omega arith) (omega arith),
  h (off + 1) (omega arith) (omega arith),
  word_sum-cong f g (off + 2) n λ i lo hi. h i (omega arith) (omega arith),
)

word_sum-shift :
    (f g : ℕ → ℕ) (k off n : ℕ)
    → ((i : ℕ) → i < off + 2 * n → f (k + i) ≡ g i)
    → word_sum f (k + off) n ≡ word_sum g off n
unfolding word_sum
word_sum-shift f g k off zero h = refl
word_sum-shift f g k off (suc n) h = omega (
  arith,
  h off (omega arith),
  ap f (add_assoc k off 1) ∙ h (off + 1) (omega arith),
  move f (k + off + 2) (k + (off + 2)) n (add_assoc k off 2)
      ∙ word_sum-shift f g k (off + 2) n (λ i lt. h i (omega arith)),
)

-- Bytes of a list, out of bounds too.
abbrev pub AreBytes : List ℕ → Type 0
AreBytes xs = (i : ℕ) → get_or xs i 0 < 256

abbrev pub EachByte : List ℕ → Type 0
EachByte [] = Unit
EachByte (x ∷ xs) = (x < 256) × EachByte xs

pub EachByte-AreBytes : (xs : List ℕ) → EachByte xs → AreBytes xs
EachByte-AreBytes [] h i = omega arith
EachByte-AreBytes (x ∷ xs) h zero = h.0
EachByte-AreBytes (x ∷ xs) h (suc i) = EachByte-AreBytes xs (h.1) i

get_or_later : (a b : ℕ) (xs : List ℕ) (i : ℕ) → get_or (a ∷ b ∷ xs) (2 + i) 0 ≡ get_or xs i 0
get_or_later a b xs i =
    let e : 2 + i ≡ suc (suc i) = omega arith in ap (λ k. get_or (a ∷ b ∷ xs) k 0) e

pub words_sum-word_sum :
    (xs : List ℕ) (n : ℕ) → length xs ≡ 2 * n → words_sum xs ≡ word_sum (λ i. get_or xs i 0) 0 n
unfolding word_sum
words_sum-word_sum [] zero h = refl
words_sum-word_sum [] (suc n) h = absurd (omega arith)
words_sum-word_sum (a ∷ xs) zero h = absurd (omega arith)
words_sum-word_sum (a ∷ []) (suc n) h = absurd (omega arith)
words_sum-word_sum (a ∷ b ∷ xs) (suc n) h = omega (
  arith,
  words_sum-word_sum xs n (omega (arith, h)),
  word_sum-shift (λ i. get_or (a ∷ b ∷ xs) i 0) (λ i. get_or xs i 0) 2 0 n
      (λ i _. get_or_later a b xs i),
)

pub SameWords-bytes :
    (old new : List ℕ) (n : ℕ)
    → length old ≡ 2 * n
    → length new ≡ 2 * n
    → AreBytes old
    → AreBytes new
    → SameWords old new × (words_count old ≡ n)
SameWords-bytes [] [] zero ho hn bo bn = (tt, refl)
SameWords-bytes [] new (suc n) ho hn bo bn = absurd (omega arith)
SameWords-bytes [] (c ∷ new) zero ho hn bo bn = absurd (omega arith)
SameWords-bytes (a ∷ old) new zero ho hn bo bn = absurd (omega arith)
SameWords-bytes (a ∷ []) new (suc n) ho hn bo bn = absurd (omega arith)
SameWords-bytes (a ∷ b ∷ old) [] (suc n) ho hn bo bn = absurd (omega arith)
SameWords-bytes (a ∷ b ∷ old) (c ∷ []) (suc n) ho hn bo bn = absurd (omega arith)
SameWords-bytes (a ∷ b ∷ old) (c ∷ d ∷ new) (suc n) ho hn bo bn =
    let rest =
      SameWords-bytes old new n (omega (arith, ho)) (omega (arith, hn)) (λ i. bo (suc (suc i)))
        λ i. bn (suc (suc i)) in
    ((bo 0, bo 1, bn 0, bn 1, rest.0), omega (arith, rest.1))

word_sum_one : (f : ℕ → ℕ) (off : ℕ) → word_sum f off 1 ≡ f off * 256 + f (off + 1)
unfolding word_sum
word_sum_one f off = omega arith

-- A sum in five parts: the words before the checksum, the checksum, the words up to T3, T3, the rest.
word_sum_parts :
    (f : ℕ → ℕ) (off n : ℕ)
    → 28 ≤ n
    → word_sum f off n
      ≡ word_sum f off 3
        + (f (off + 6) * 256 + f (off + 7))
        + word_sum f (off + 8) 20
        + word_sum f (off + 48) 4
        + word_sum f (off + 56) (n - 28)
word_sum_parts f off n big =
    let e7 : off + 6 + 1 ≡ off + 7 = omega arith in
    omega (
      arith,
      word_sum-split f off 3 (n - 3) n (omega arith),
      word_sum-split f (off + 2 * 3) 1 (n - 4) (n - 3) (omega arith),
      move f (off + 2 * 3) (off + 6) 1 (omega arith),
      word_sum_one f (off + 6),
      ap f e7,
      move f (off + 2 * 3 + 2 * 1) (off + 8) (n - 4) (omega arith),
      word_sum-split f (off + 8) 20 (n - 24) (n - 4) (omega arith),
      move f (off + 8 + 2 * 20) (off + 48) (n - 24) (omega arith),
      word_sum-split f (off + 48) 4 (n - 28) (n - 24) (omega arith),
      move f (off + 48 + 2 * 4) (off + 56) (n - 28) (omega arith),
    )

-- The four words of T3 are those of its list.
word_sum_field :
    (f : ℕ → ℕ) (off : ℕ) (field : List ℕ)
    → length field ≡ 8
    → ((i : ℕ) → i < 8 → f (off + i) ≡ get_or field i 0)
    → word_sum f off 4 ≡ words_sum field
word_sum_field f off field eight h =
    move f off (off + 0) 4 (omega arith)
    ∙ word_sum-shift f (λ i. get_or field i 0) off 0 4 (λ i lt. h i (omega (arith, lt)))
    ∙ sym (words_sum-word_sum field 4 (omega (arith, eight)))

-- A range of words with a checksum word, a field of four words some way after it, and more words. If
-- the field and the checksum are replaced as `udp_csum_update` has it, the sum stays valid.
pub word_sum-update :
    (pseudo : ℕ) (f g : ℕ → ℕ) (off n : ℕ) (old new : List ℕ)
    → 28 ≤ n
    → length old ≡ 8
    → length new ≡ 8
    → AreBytes old
    → AreBytes new
    → f (off + 6) * 256 + f (off + 7) < 65536
    → let csum = f (off + 6) * 256 + f (off + 7) in
      let csum' = udp_csum_update csum old new in
      ((i : ℕ) → i < 8 → f (off + 48 + i) ≡ get_or old i 0)
      → ((i : ℕ) → i < 8 → g (off + 48 + i) ≡ get_or new i 0)
      → g (off + 6) * 256 + g (off + 7) ≡ csum'
      → ((i : ℕ) → i < off + 6 → f i ≡ g i)
      → ((i : ℕ) → off + 8 ≤ i → i < off + 48 → f i ≡ g i)
      → ((i : ℕ) → off + 56 ≤ i → i < off + 2 * n → f i ≡ g i)
      → (pseudo + word_sum f off n) % 65535 ≡ 0
      → ((pseudo + word_sum g off n) % 65535 ≡ 0) × (0 < g (off + 6) * 256 + g (off + 7))
word_sum-update pseudo f g off n old new big lo ln bo bn word at_old at_new csum low mid high
      valid =
    let same = SameWords-bytes old new 4 (omega (arith, lo)) (omega (arith, ln)) bo bn in
    let before : word_sum f off 3 ≡ word_sum g off 3 =
      word_sum-cong f g off 3 (λ i _ lt. low i (omega (arith, lt))) in
    let between : word_sum f (off + 8) 20 ≡ word_sum g (off + 8) 20 =
      word_sum-cong f g (off + 8) 20 (λ i ge lt. mid i (omega (arith, ge)) (omega (arith, lt))) in
    let later : word_sum f (off + 56) (n - 28) ≡ word_sum g (off + 56) (n - 28) =
      word_sum-cong f g (off + 56) (n - 28)
        (λ i ge lt. high i (omega (arith, ge)) (omega (arith, lt, big))) in
    let rest : ℕ =
      pseudo + word_sum f off 3 + word_sum f (off + 8) 20 + word_sum f (off + 56) (n - 28) in
    let field = word_sum_field f (off + 48) old lo at_old in
    let update =
      udp_csum_update_valid rest (f (off + 6) * 256 + f (off + 7)) old new word (same.0) (same.1)
        (omega (arith, valid, field, word_sum_parts f off n big)) in
    (
      omega (
        arith,
        update.0,
        csum,
        before,
        between,
        later,
        word_sum_field g (off + 48) new ln at_new,
        word_sum_parts g off n big,
      ),
      omega (arith, csum, update.1),
    )
