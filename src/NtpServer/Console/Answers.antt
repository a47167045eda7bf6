-- ===== src/NtpServer/Console/Answers.antt =====
-- The answer of `diag_serve_` in ntp_server.cpp to a command, from the state to the datagrams.
use esphome_gps_pps_ntp_serv.Base.{
  ℕ, zero, suc, ◌/◌, ◌≤◌, ◌<◌, ◌≡◌, ◌==◌, ◌&&◌, ◌||◌, not, refl, ◌⊎◌, inl, inr, Bool, true, Option,
  none, some, List, [], ◌∷◌, ◌++◌, map, length, take, length-take, length-map, arith, ℤ, pos,
  pos_part, ◌+ℤ◌, ◌*ℤ◌, ltb_ℤ, to_i32, sub32, if◌then◌else◌, if_elim, Option-cases,
}
use esphome_gps_pps_ntp_serv.W5500.Recorder.{NetBin, Recorder, net_bin, net_bins, talker}
use esphome_gps_pps_ntp_serv.TalkerTable.{Talker}
use esphome_gps_pps_ntp_serv.NtpServer.IntLevel.{IntLevel}
use esphome_gps_pps_ntp_serv.NtpServer.Diag.{DiagRecord}
use esphome_gps_pps_ntp_serv.NtpServer.Diag.Ring.{DiagSlot, Diagnostics, list_slots, list_requests}
use esphome_gps_pps_ntp_serv.NtpServer.Console.Text.{codes, u_text, d_text, x4_text, x2_text}
use esphome_gps_pps_ntp_serv.NtpServer.Console.Batch.{empty_batch, flush, emit_all}
use esphome_gps_pps_ntp_serv.NtpServer.Console.Lines.{
  DiagReads, clk_line, request_line, bin_lines, is_idle, add_bin, add_talker, talker_lines,
  int_line, usage_line, is_command, has_ring, bit, answer_body, answer_lines, c_string, end_line,
}
use esphome_gps_pps_ntp_serv.NtpServer.Console.Lengths.{
  Fits, Fits-line_of, IsInt64, IsPrintable, IsBin, IsTalker, request_line-Fits, bin_line-Fits,
  talker_line-Fits, d_text-int64, u_text-u32, u_text-digit,
}
use esphome_gps_pps_ntp_serv.NtpServer.Console.Datagrams.{
  flat, AllFit, AllSized, emit_all-datagrams,
}
use esphome_gps_pps_ntp_serv.NtpServer.Console.Port.{PortIo, command, diag_serve}

abbrev pub ArePrintable : List DiagRecord → Type 0
ArePrintable [] = Unit
ArePrintable (d ∷ ds) = IsPrintable d × ArePrintable ds

-- All that an answer prints is in the range of its type.
pub record IsSound (s : Diagnostics) (r : DiagReads) : Type 0 where
  pub requests : ArePrintable (list_requests s)
  pub bins : (i : ℕ) (b : NetBin) → net_bin s.recorder i ≡ some b → IsBin b
  pub talkers : (i : ℕ) (t : Talker) → talker s.recorder i ≡ some t → IsTalker t
  pub clock : IsInt64 r.clock_us
  pub micros : r.micros < 4294967296
  pub wall : IsInt64 (r.tv_sec *ℤ pos 1000000 +ℤ r.tv_usec)

pub requests-AllFit : (ds : List DiagRecord) → ArePrintable ds → AllFit (map request_line ds)
requests-AllFit [] h = tt
requests-AllFit (d ∷ ds) h = (request_line-Fits d h.0, requests-AllFit ds h.1)

add_bin-AllFit :
    (o : Option NetBin) (rest : List (List ℕ))
    → ((b : NetBin) → o ≡ some b → IsBin b)
    → AllFit rest
    → AllFit (add_bin o rest)
add_bin-AllFit none rest h fit = fit
add_bin-AllFit (some b) rest h fit =
    if_elim AllFit (is_idle b) (λ _. fit) λ _. (bin_line-Fits b (h b refl), fit)

bins-AllFit :
    (s : Recorder) (i k : ℕ)
    → ((j : ℕ) (b : NetBin) → net_bin s j ≡ some b → IsBin b)
    → AllFit (bin_lines s i k)
unfolding bin_lines
bins-AllFit s i zero h = tt
bins-AllFit s i (suc k) h =
    add_bin-AllFit (net_bin s i) (bin_lines s (suc i) k) (h i) (bins-AllFit s (suc i) k h)

add_talker-AllFit :
    (o : Option Talker) (rest : List (List ℕ))
    → ((t : Talker) → o ≡ some t → IsTalker t)
    → AllFit rest
    → AllFit (add_talker o rest)
add_talker-AllFit none rest h fit = fit
add_talker-AllFit (some t) rest h fit = (talker_line-Fits t (h t refl), fit)

talkers-AllFit :
    (s : Recorder) (i k : ℕ)
    → ((j : ℕ) (t : Talker) → talker s j ≡ some t → IsTalker t)
    → AllFit (talker_lines s i k)
unfolding talker_lines
talkers-AllFit s i zero h = tt
talkers-AllFit s i (suc k) h =
    add_talker-AllFit (talker s i) (talker_lines s (suc i) k) (h i) (talkers-AllFit s (suc i) k h)

clk_line-Fits :
    (r : DiagReads)
    → IsInt64 r.clock_us
    → r.micros < 4294967296
    → IsInt64 (r.tv_sec *ℤ pos 1000000 +ℤ r.tv_usec)
    → Fits (clk_line r)
clk_line-Fits r hc hm hw =
    let wall : ℤ = r.tv_sec *ℤ pos 1000000 +ℤ r.tv_usec in
    Fits-line_of (codes "CLK") (d_text r.clock_us ∷ u_text r.micros ∷ d_text wall ∷ [])
      (omega (arith, d_text-int64 r.clock_us hc, u_text-u32 r.micros hm, d_text-int64 wall hw))

remaining_bound : (x : ℕ) → x < 4294967296 → pos_part (to_i32 x) / 1000 < 4294967296
remaining_bound x h = ground arith

int_line-Fits : (level : IntLevel) (r : DiagReads) → Fits (int_line level r)
unfolding int_line x4_text x2_text
int_line-Fits level r =
    let x : ℕ = sub32 level.recheck_ms r.now_ms in
    let left : ℕ = if ltb_ℤ (pos 0) (to_i32 x) then pos_part (to_i32 x) / 1000 else 0 in
    let small : left < 4294967296 = ground (arith, remaining_bound x (omega arith)) in
    Fits-line_of (codes "INT")
      (x4_text r.readback ∷ u_text (bit level.effective 1) ∷ u_text left ∷ [])
      (omega (arith, u_text-digit (bit level.effective 1) (ground arith), u_text-u32 left small))

length-c_string : (bs : List ℕ) → length (c_string bs) ≤ length bs
length-c_string [] = omega arith
length-c_string (b ∷ bs) = ground (arith, length-c_string bs)

pub end_line-Fits : (cmd : List ℕ) (lines : ℕ) → lines < 4294967296 → Fits (end_line cmd lines)
end_line-Fits cmd lines h =
    Fits-line_of (codes "END") (c_string (take 3 cmd) ∷ u_text lines ∷ [])
      (omega (arith, length-c_string (take 3 cmd), length-take 3 cmd, u_text-u32 lines h))

length-list_slots : (ring : List DiagSlot) (start i k : ℕ) → length (list_slots ring start i k) ≤ k
unfolding list_slots
length-list_slots ring start i zero = omega arith
length-list_slots ring start i (suc k) = ground (arith, length-list_slots ring start (suc i) k)

length-list_requests : (s : Diagnostics) → length (list_requests s) ≤ 1024
unfolding list_requests
length-list_requests s = elim (Option-cases s.diag_ring) [
  | inl e ↦ rw e (omega arith)
  | inr (ring, e) ↦ rw e (length-list_slots ring s.diag_next 0 1024)
]

length-bin_lines : (s : Recorder) (i k : ℕ) → length (bin_lines s i k) ≤ k
unfolding bin_lines
length-bin_lines s i zero = omega arith
length-bin_lines s i (suc k) = ground (arith, length-bin_lines s (suc i) k)

length-talker_lines : (s : Recorder) (i k : ℕ) → length (talker_lines s i k) ≤ k
unfolding talker_lines
length-talker_lines s i zero = omega arith
length-talker_lines s i (suc k) = ground (arith, length-talker_lines s (suc i) k)

-- What goes before END, and the number of END: that of the lines, but 0 after the usage line.
abbrev pub IsBody : List (List ℕ) × ℕ → Type 0
IsBody (body, lines) =
    AllFit body
    × (lines < 4294967296)
    × ((lines ≡ length body) ⊎ (lines ≡ 0) × (body ≡ usage_line ∷ []))

counted : (body : List (List ℕ)) → AllFit body → length body ≤ 1200 → IsBody (body, length body)
counted body fit few = (fit, omega (arith, few), inl refl)

answer_body-IsBody :
    (s : Diagnostics) (level : IntLevel) (r : DiagReads) (cmd : List ℕ)
    → IsSound s r
    → IsBody (answer_body s level r cmd)
unfolding answer_body net_bins
answer_body-IsBody s level r cmd h =
    let requests : List (List ℕ) = map request_line (list_requests s) in
    if_elim IsBody (is_command cmd (codes "CLK"))
      (λ _. counted (clk_line r ∷ []) (clk_line-Fits r h.clock h.micros h.wall, tt) (omega arith))
      λ _.
        if_elim IsBody (is_command cmd (codes "REQ") && has_ring s)
          (λ _.
            counted requests (requests-AllFit (list_requests s) h.requests)
              (omega (arith, length-map (list_requests s) request_line, length-list_requests s)))
          λ _.
            if_elim IsBody (is_command cmd (codes "NET"))
              (λ _.
                counted (bin_lines s.recorder 0 1200) (bins-AllFit s.recorder 0 1200 h.bins)
                  (length-bin_lines s.recorder 0 1200))
              λ _.
                if_elim IsBody (is_command cmd (codes "TLK"))
                  (λ _.
                    counted (talker_lines s.recorder 0 32)
                      (talkers-AllFit s.recorder 0 32 h.talkers)
                      (omega (arith, length-talker_lines s.recorder 0 32)))
                  λ _.
                    if_elim IsBody (is_command cmd (codes "INT"))
                      (λ _.
                        counted (int_line level r ∷ []) (int_line-Fits level r, tt) (omega arith))
                      λ _. ((omega arith, tt), omega arith, inr (refl, refl))

pub AllFit-snoc : (ls : List (List ℕ)) (l : List ℕ) → AllFit ls → Fits l → AllFit (ls ++ l ∷ [])
AllFit-snoc [] l h fit = (fit, tt)
AllFit-snoc (k ∷ ls) l h fit = (h.0, AllFit-snoc ls l h.1 fit)

pub diag_serve_open :
    (s : Diagnostics) (level : IntLevel) (is_open : Bool) (io : PortIo)
    → s.diagnostics ≡ true
    → is_open || (io.socket_ok && io.bind_ok) ≡ true
    → 0 < length (command io)
    → diag_serve s level is_open io ≡ (
      true,
      (flush
          (emit_all io.stale empty_batch (answer_lines s level io.reads (command io)))).datagrams,
    )
unfolding diag_serve
diag_serve_open s level is_open io on opened asked =
    let answer : Bool × List (List ℕ) = (
      true,
      (flush
          (emit_all io.stale empty_batch (answer_lines s level io.reads (command io)))).datagrams,
    ) in
    if_elim (λ p. p ≡ answer) (not s.diagnostics) (λ t. absurd (ground arith))
      λ _.
        if_elim (λ p. p ≡ answer) (not is_open && not (io.socket_ok && io.bind_ok))
          (λ t. absurd (ground arith))
          λ _.
            if_elim (λ p. p ≡ answer) (length (command io) == 0) (λ t. absurd (ground arith))
              λ _. refl

-- Diagnostics are on, the port's socket is open or can be opened, a command has come, and what is printed lies in the
-- range of its type. Then the datagrams that go out hold the lines of the command's answer, whole and
-- in order, none cut off; each datagram has 1 to 1400 bytes and holds a group of successive lines. The
-- last line is END, with the number of the others, or with 0 after the usage line.
pub diag_serve-answers :
    (s : Diagnostics) (level : IntLevel) (is_open : Bool) (io : PortIo)
    → s.diagnostics ≡ true
    → is_open || (io.socket_ok && io.bind_ok) ≡ true
    → 0 < length (command io)
    → IsSound s io.reads
    → let (stays_open, sent) = diag_serve s level is_open io in
      let (body, lines) = answer_body s level io.reads (command io) in
      (stays_open ≡ true)
      × ((lines ≡ length body) ⊎ (lines ≡ 0) × (body ≡ usage_line ∷ []))
      × (groups : List (List (List ℕ))) × (flat groups ≡ body ++ end_line (command io) lines ∷ [])
      × (sent ≡ map flat groups)
      × AllSized sent
unfolding answer_lines
diag_serve-answers s level is_open io on opened asked h =
    let (body, lines) = answer_body s level io.reads (command io) in
    let (fit, few, number) = answer_body-IsBody s level io.reads (command io) h in
    let whole : List (List ℕ) = body ++ end_line (command io) lines ∷ [] in
    let (groups, joined, sent, sized) =
      emit_all-datagrams io.stale whole (
        AllFit-snoc body (end_line (command io) lines) fit
          (end_line-Fits (command io) lines few)) in
    let e = diag_serve_open s level is_open io on opened asked in
    rw e (refl, number, groups, joined, sent, sized)
