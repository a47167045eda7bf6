-- ===== src/ArpWait/Tests.antt =====
-- The ARP wait in a concrete world: its state is a clock in microseconds, an entry appears 5 ms in,
-- and a sleep takes 1 ms.
use esphome_gps_pps_ntp_serv.Base.{
  ℕ, ◌+◌, ◌≡◌, ◌⊎◌, refl, true, false, some, arith, leb, ℤ, pos, ◌-ℤ◌,
}
use esphome_gps_pps_ntp_serv.ArpWait.{
  ArpWaitResult, Callables, next_hop_ipv4, wait_loop, wait_for_arp,
}
use esphome_gps_pps_ntp_serv.ArpWait.Bounded.{IsClock, counting, Ended, Told, wait_for_arp_ends}

abbrev world : Callables ℕ
world = record {
  lookup = λ t. (leb 5000 t, t);
  query = λ t. t;
  sleep_1ms = λ t. t + 1000;
  now_us = λ t. (pos t, t);
}

abbrev clock : ℕ → ℤ
clock t = pos t

clock-IsClock : IsClock world clock
clock-IsClock = record {
  reads = λ t. refl;
  now_runs = λ t. omega arith;
  lookup_runs = λ t. omega arith;
  sleep_runs = λ t. omega arith;
}

wait_for_arp_ends_example :
    (r : ArpWaitResult) × (w' : ℕ) × (k : ℕ) × (wait_for_arp
        (counting world)
        (pos 20000)
        20001
        (0, 0)
      ≡ some (r, (w', k)))
    × ((world.lookup 0 ≡ (true, w'))
          × (k ≡ 0)
          × (r ≡ record { resolved = true; missed = false; waited_us = pos 0 })
        ⊎ ((world.lookup 0).0 ≡ false) × (k ≡ 1) × Ended 20000 r × Told world 0 r w')
wait_for_arp_ends_example =
    wait_for_arp_ends world clock clock-IsClock 20000 20001 0 0 (omega arith) (omega arith)

-- The entry that appears after 5 ms is found in the fifth round.
found_in_time :
    wait_for_arp world (pos 20000) 8 0
    ≡ some (record { resolved = true; missed = true; waited_us = pos 5000 }, 5000)
unfolding wait_for_arp wait_loop ◌-ℤ◌
found_in_time = refl

off_subnet : next_hop_ipv4 0x0a000007 0xc0a80102 0xffffff00 0xc0a80101 ≡ 0xc0a80101
unfolding next_hop_ipv4
off_subnet = refl
