-- ===== src/W5500/Memory.antt =====
-- The W5500's TX ring as the transfers of w5500_custom_spi.cpp change it: a transfer that returned
-- ESP_OK writes its bytes from its address on, modulo the ring's size, and one that did not writes
-- nothing.
use esphome_gps_pps_ntp_serv.Base.{
  ℕ, zero, suc, ◌+◌, ◌-◌, ◌%◌, ◌≤◌, ◌<◌, ◌≡◌, ◌==◌, ◌&&◌, refl, ap, true, false, ltb, leb, Option,
  none, some, List, [], ◌∷◌, ◌++◌, length, get_or, take, drop, arith, if◌then◌else◌,
  take-append-drop, length-take, take_all, length-drop, u16, if_elim,
}
use mathlib.Core.Path.{◌∙◌, sym}
use esphome_gps_pps_ntp_serv.TxPatch.{RingWrite, plan_ring_writes}
use esphome_gps_pps_ntp_serv.W5500.Link.{Io, Link, Transfer, transfer}
use esphome_gps_pps_ntp_serv.W5500.Patch.{patch_writes, patch_write_ring, txbuf_write}

-- The byte of each cell of the ring.
abbrev pub Memory : Type 0
Memory = ℕ → ℕ

abbrev pub ring_size : ℕ
ring_size = 0x4000

pub put_bytes : Memory → ℕ → List ℕ → Memory
put_bytes m a [] = m
put_bytes m a (b ∷ bytes) = put_bytes (λ c. if c == a % ring_size then b else m c) (a + 1) bytes

abbrev pub written : Memory → Transfer → Option (List ℕ) → Memory
written m t none = m
written m t (some bytes) =
    if t.done && t.addr == txbuf_write then put_bytes m t.cmd (take t.len bytes) else m

-- The ring after the transfers of a log.
pub after : List Transfer → Memory → Memory
after [] m = m
after (t ∷ log) m = after log (written m t t.out)

-- Byte `i` of the frame that starts at address `start`.
abbrev pub frame_byte : Memory → ℕ → ℕ → ℕ
frame_byte m start i = m ((start + i) % ring_size)

after-append :
    (log : List Transfer) (t : Transfer) (m : Memory)
    → after (log ++ (t ∷ [])) m ≡ written (after log m) t t.out
unfolding after
after-append [] t m = refl
after-append (u ∷ log) t m = after-append log t (written m u u.out)

put_bytes-mod :
    (bytes : List ℕ) (m : Memory) (a b : ℕ)
    → a % ring_size ≡ b % ring_size
    → put_bytes m a bytes ≡ put_bytes m b bytes
unfolding put_bytes
put_bytes-mod [] m a b h = refl
put_bytes-mod (x ∷ bytes) m a b h =
    rw h (
      put_bytes-mod bytes (λ c. if c == b % ring_size then x else m c) (a + 1) (b + 1)
        (omega arith))

put_bytes-append :
    (xs ys : List ℕ) (m : Memory) (a : ℕ)
    → put_bytes m a (xs ++ ys) ≡ put_bytes (put_bytes m a xs) (a + length xs) ys
unfolding put_bytes
put_bytes-append [] ys m a = ap (λ b. put_bytes m b ys) (omega arith)
put_bytes-append (x ∷ xs) ys m a =
    let m' : Memory = λ c. if c == a % ring_size then x else m c in
    put_bytes-append xs ys m' (a + 1)
    ∙ ap (λ b. put_bytes (put_bytes m' (a + 1) xs) b ys) (omega arith)

get_or_later : (x : ℕ) (xs : List ℕ) (k : ℕ) → 0 < k → get_or (x ∷ xs) k 0 ≡ get_or xs (k - 1) 0
get_or_later x xs zero h = elim h [ ]
get_or_later x xs (suc k) h = ap (λ j. get_or xs j 0) (omega arith)

-- What a write of `bytes` at offset `off` of a frame does to the frame's bytes.
pub put_bytes-frame_byte :
    (bytes : List ℕ) (m : Memory) (start off i : ℕ)
    → off + length bytes ≤ ring_size
    → i < ring_size
    → frame_byte (put_bytes m (start + off) bytes) start i ≡ (
        if leb off i && ltb i (off + length bytes)
        then get_or bytes (i - off) 0
        else frame_byte m start i)
unfolding put_bytes
put_bytes-frame_byte [] m start off i h hi = ground arith
put_bytes-frame_byte (x ∷ bytes) m start off i h hi =
    let m' : Memory = λ c. if c == (start + off) % ring_size then x else m c in
    let later : put_bytes m' (start + off + 1) bytes ((start + i) % ring_size)
        ≡ put_bytes m' (start + (off + 1)) bytes ((start + i) % ring_size) =
      ap (λ b. put_bytes m' b bytes ((start + i) % ring_size)) (omega arith) in
    let ih = put_bytes-frame_byte bytes m' start (off + 1) i (omega (arith, h)) hi in
    later ∙ ih ∙ ground (arith, get_or_later x bytes (i - off))

split_write :
    (m : Memory) (a b first n : ℕ) (src : List ℕ)
    → b ≡ a + length (take first src)
    → n ≡ length (drop first src)
    → put_bytes (put_bytes m a (take first src)) b (take n (drop first src)) ≡ put_bytes m a src
split_write m a b first n src hb hn =
    rw (hb, hn, take_all (drop first src))
      (sym (put_bytes-append (take first src) (drop first src) m a)
        ∙ ap (put_bytes m a) (take-append-drop first src))

-- A write of one range puts the bytes where the frame takes them ..
one_range :
    (m : Memory) (frame_start off : ℕ) (src : List ℕ)
    → off + length src ≤ ring_size
    → put_bytes m (u16 (frame_start % ring_size + off)) (take (length src) (drop 0 src))
      ≡ put_bytes m (frame_start + off) src
one_range m frame_start off src h =
    rw (take_all src)
      (put_bytes-mod src m (u16 (frame_start % ring_size + off)) (frame_start + off) (omega arith))

-- .. and so does one in two, split at the end of the ring.
two_ranges :
    (m : Memory) (frame_start off : ℕ) (src : List ℕ)
    → off + length src ≤ ring_size
    → let start = frame_start % ring_size + off in
      let first = u16 (ring_size - start) in
      start < ring_size
      → ring_size < start + length src
      → put_bytes
          (put_bytes m (u16 start) (take first (drop 0 src)))
          ring_size
          (take (u16 (length src - first)) (drop first src))
        ≡ put_bytes m (frame_start + off) src
two_ranges m frame_start off src h lt gt =
    let start : ℕ = frame_start % ring_size + off in
    let first : ℕ = u16 (ring_size - start) in
    let word : u16 start ≡ start = omega arith in
    rw word (
      split_write m start ring_size first (u16 (length src - first)) src
        (omega (arith, length-take first src)) (omega (arith, length-drop first src))
      ∙ put_bytes-mod src m start (frame_start + off) (omega arith))

-- The write of a patch does not cross the end of the ring.
abbrev pub Unsplit : ℕ → ℕ → ℕ → Type 0
Unsplit frame_start off n = frame_start % ring_size + off + n ≤ ring_size

module _ (io : Io) (m : Memory) where
  transfer-after :
      (l : Link) (cmd : ℕ) (bytes : List ℕ) (len : ℕ)
      → let (l', done) = transfer io l cmd txbuf_write (some bytes) len in
        after l'.log m
        ≡ (if done then put_bytes (after l.log m) cmd (take len bytes) else after l.log m)
  unfolding transfer
  transfer-after l cmd bytes len = after-append l.log _ m ∙ ground arith

  -- A transfer of a frame's bytes, and one to another address.
  pub transfer-after_done :
      (l : Link) (cmd : ℕ) (bytes : List ℕ) (len : ℕ)
      → let (l', done) = transfer io l cmd txbuf_write (some bytes) len in
        done ≡ true → after l'.log m ≡ put_bytes (after l.log m) cmd (take len bytes)
  transfer-after_done l cmd bytes len d = ground (arith, transfer-after l cmd bytes len)

  pub transfer-after_other :
      (l : Link) (cmd addr : ℕ) (bytes : List ℕ) (len : ℕ)
      → addr == txbuf_write ≡ false
      → after (transfer io l cmd addr (some bytes) len).0.log m ≡ after l.log m
  unfolding transfer
  transfer-after_other l cmd addr bytes len h = after-append l.log _ m ∙ ground arith

  one_write :
      (l : Link) (w : RingWrite) (src : List ℕ)
      → let (l', done) = patch_writes io l (w ∷ []) src in
        after l'.log m ≡ (
          if done
          then put_bytes (after l.log m) w.addr (take w.len (drop w.src src))
          else after l.log m)
  unfolding patch_writes
  one_write l w src = ground (arith, transfer-after l w.addr (drop w.src src) w.len)

  done_write :
      (l : Link) (w : RingWrite) (src : List ℕ)
      → let (l', done) = patch_writes io l (w ∷ []) src in
        done ≡ true
        → after l'.log m ≡ put_bytes (after l.log m) w.addr (take w.len (drop w.src src))
  done_write l w src d = ground (arith, one_write l w src)

  failed_write :
      (l : Link) (w : RingWrite) (src : List ℕ)
      → let (l', done) = patch_writes io l (w ∷ []) src in
        done ≡ false → after l'.log m ≡ after l.log m
  failed_write l w src d = ground (arith, one_write l w src)

  two_writes :
      (l : Link) (v w : RingWrite) (src : List ℕ)
      → let (l', done) = patch_writes io l (v ∷ w ∷ []) src in
        done ≡ true
        → after l'.log m
          ≡ put_bytes
              (put_bytes (after l.log m) v.addr (take v.len (drop v.src src)))
              w.addr
              (take w.len (drop w.src src))
  unfolding patch_writes
  two_writes l v w src h =
      let first = transfer io l v.addr txbuf_write (some (drop v.src src)) v.len in
      ground (
        arith,
        transfer-after l v.addr (drop v.src src) v.len,
        transfer-after first.0 w.addr (drop w.src src) w.len,
      )

  abbrev Puts : Link → ℕ → ℕ → List ℕ → List RingWrite → Type 0
  Puts l frame_start off src writes =
      let (l', done) = patch_writes io l writes src in
      done ≡ true → after l'.log m ≡ put_bytes (after l.log m) (frame_start + off) src

  abbrev Keeps : Link → List ℕ → List RingWrite → Type 0
  Keeps l src writes =
      let (l', done) = patch_writes io l writes src in done ≡ false → after l'.log m ≡ after l.log m

  -- All writes done: the patch's bytes lie where the frame takes them.
  pub patch_write_ring-done :
      (l : Link) (frame_start off : ℕ) (src : List ℕ)
      → off + length src ≤ ring_size
      → let (l', done) = patch_write_ring io l frame_start off src (length src) in
        done ≡ true → after l'.log m ≡ put_bytes (after l.log m) (frame_start + off) src
  unfolding patch_write_ring plan_ring_writes
  patch_write_ring-done l frame_start off src h =
      let start : ℕ = frame_start % ring_size + off in
      let first : ℕ = u16 (ring_size - start) in
      let n : ℕ = length src in
      let one : RingWrite = record { addr = u16 start; len = n; src = 0 } in
      let v : RingWrite = record { addr = u16 start; len = first; src = 0 } in
      let w : RingWrite = record { addr = 0x4000; len = u16 (n - first); src = first } in
      if_elim (Puts l frame_start off src) (ltb start 0x4000 && ltb 0x4000 (start + n))
        (λ t. λ d.
          two_writes l v w src d
          ∙ two_ranges (after l.log m) frame_start off src h (ground arith) (ground arith))
        λ _. λ d. done_write l one src d ∙ one_range (after l.log m) frame_start off src h

  -- A patch in one range whose write failed has changed nothing.
  pub patch_write_ring-failed :
      (l : Link) (frame_start off : ℕ) (src : List ℕ)
      → Unsplit frame_start off (length src)
      → let (l', done) = patch_write_ring io l frame_start off src (length src) in
        done ≡ false → after l'.log m ≡ after l.log m
  unfolding patch_write_ring plan_ring_writes
  patch_write_ring-failed l frame_start off src h =
      let start : ℕ = frame_start % ring_size + off in
      let first : ℕ = u16 (ring_size - start) in
      let n : ℕ = length src in
      let one : RingWrite = record { addr = u16 start; len = n; src = 0 } in
      if_elim (Keeps l src) (ltb start 0x4000 && ltb 0x4000 (start + n))
        (λ t. absurd (ground arith)) λ _. failed_write l one src
