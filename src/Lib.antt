-- ===== src/Lib.antt =====
-- A GPS-disciplined NTP server for ESPHome on an ESP32 with a W5500 Ethernet chip. A pulse per
-- second (PPS) and NMEA sentences of a GPS receiver discipline the system clock; NTP requests are
-- answered from it, with the receive timestamp (T2) taken when a frame arrives and the transmit
-- timestamp (T3) projected to the moment the chip sends.
--
-- The parts and their files:
--   Gps          components/gps_pps_time/gps_pps_time.{cpp,h}: State is the object's state, Isr the
--                interrupt pps_isr and the capture callback, Pulse the loop and
--                apply_pps_correction_, with Period (is the pulse one second long?), Latency
--                (track_isr_latency_) and Discipline (its four branches); Nmea is on_update, Anchor
--                the reading of the published anchor, Serving is_synchronized, Update setup, loop
--                with the crash context, and update. Proofs: Invariant, Reach, Rules, Epoch,
--                Between, Sentences and SyncedEpoch (what sentences do to the epoch, with pulses between them),
--                Reports, CrashReports; AnchorStores and Seqlock (the anchor's writer beside its
--                reader), PulseSteps and Recovery (the pulses from no synchronisation to an anchor).
--   NtpServer    components/ntp_server/ntp_server.{cpp,h}: Timestamp (encode_ntp_timestamp_,
--                anchor_epoch_us_, get_ntp_timestamp_, hook_to_ntp_timestamp_, build_patch_t3_),
--                Reply (build_ntp_response_), Frame (eth_input_hook_), Request (the handling of one
--                request in recv_task_), IntLevel (set_short_int_wait and its part of loop), Window
--                (WindowMax), ArpClients. Proofs: Convert, Serve, Admit, Answered, and beside the
--                definitions.
--                Diag (DiagRecord; Fill, how recv_task_ fills one; Ring, set_diagnostics,
--                diag_record_ and the order of the REQ dump; proofs in Window and Dump). Task
--                (recv_task_ as a whole, with the lookup and the records; proofs in Accounts, Running,
--                Printable, Answer, Dumped and Run). Console (diag_serve_: Text for what is printed,
--                Lines for each command, Batch for the datagrams, Port for the socket; proofs in
--                Lengths, Datagrams and Answers). Setup (setup, set_post_write_t3 and
--                tx_patch_trampoline_; proofs in Start, and in Wire with the driver). Loop (loop as
--                a whole; Shown, the windows and what is shown of them; proofs in Telemetry and
--                Period).
--   Deadman, RxAdmission, SendEstimator, TxPatch, ArpWait, HookRing
--                components/ntp_server/{deadman,rx_admission,send_estimator,ntp_tx_patch,arp_wait,
--                hook_ring}.h, each with its proofs in the modules below it.
--   TalkerTable  components/ethernet/w5500_talker_table.h.
--   W5500        components/ethernet/w5500_custom_spi.{h,cpp}: Classify (classify_frame), Recorder
--                (the network recorder), Command (the Sn_CR statistics), Link
--                (w5500_custom_spi_transfer), Patch (patch_write_ring, and the patch before a SEND),
--                Driver (w5500_custom_spi_write), Reads (w5500_custom_spi_read and the functions of
--                the header). Proofs: Sliding and Counts of the recorder; Memory, Atomic, PatchSend,
--                FrameWrite and OnWire of the bytes in the TX ring, WireSum and WireChecksum of the
--                checksum over them; Ops, Stamps, FrameTimes, Pairing and Receive of the stamps
--                over sequences of callbacks.
--   Base         what they share: tests, lists, integers and machine words.
--
-- How they interact: the driver task calls Frame for each frame, which records in HookRing; the
-- request task (Request) looks the record up, asks RxAdmission, waits for the next hop (ArpWait),
-- builds the reply (Reply) from the anchor that Gps publishes, and learns from the driver's send
-- stamp (SendEstimator, and the delay estimator of TxPatch). IntLevel decides whether RxAdmission
-- may trust the short interrupt wait. Gps keeps the anchor and says whether it may be served from.
-- Setup registers the server's callback with the driver, which asks it for T3 before each SEND; Task
-- keeps the records that Console dumps, and Loop publishes the windows that Frame and Request fill.
--
-- How the source is read: an operation is a function from the state and from what its calls return
-- (clocks, registers, the parser, the driver's stamps) to the new state and to the calls it makes of
-- the system clock or the chip. Unsigned words wrap by `%`, signed values are integers (ℤ), with a
-- cast written where the source casts. The two loops of get_ntp_timestamp_ run on fuel that is
-- computed from the microseconds, one round for each million; the loop of wait_for_arp runs on fuel
-- that the caller gives, and `none` says that it ran out; the carry fold of the checksum has three
-- rounds, the most that a sum of nine words needs. A number is printed on fuel 20, the most digits
-- that one of 64 bits has in base ten. The precision of setup is searched from 20 down, as in the
-- source.
--
-- The bins of the recorder roll on fuel 1200, and a ring more than that many bins behind starts
-- anew. A transfer of the driver that does not return ESP_OK is taken to write nothing to the chip.
--
-- Parameters: the clock, the lock and the SPI device of the driver are the record Io, whose
-- functions say what each numbered call returns; the callback that gives a new T3 is an argument;
-- the root dispersion, which is floating-point arithmetic, is an argument of Reply; the ARP cache
-- and the callables of wait_for_arp are arguments of ArpWait and ArpClients.
--
-- A value that is published as a float is kept as the integers that it is made from, and the text of
-- the crash report as the values printed into it. The comparison of floats in setup is that of the
-- exact numbers. What follows a line in memory is a parameter of Console, for a line longer than its
-- buffer.
--
-- Not modelled: the set-up of pins and of the capture, log lines, dump_config, the setters that the
-- configuration calls, the branches for other platforms, the rest of components/ethernet (a copy of
-- ESPHome's component), and the Python code generators. A call of an operation is one step; only
-- HookRing/Seqlock and Gps/Seqlock look at the single stores of a writer beside a reader.
pub mod Base
pub mod Deadman
pub mod RxAdmission
pub mod SendEstimator
pub mod TxPatch
pub mod ArpWait
pub mod TalkerTable
pub mod HookRing
pub mod Gps
pub mod NtpServer
pub mod W5500
