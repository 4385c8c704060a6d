-- ===== src/Traffic/Metering.antt =====
-- Over the readings of a meter, every byte is counted once, across resets of the firewall's counters.
use hy.Prelude.{ℕ, ◌+◌, true, ◌≡◌, refl, some, List, [], ◌∷◌, arith, leb, ◌==◌, if◌then◌else◌}
use hy.Store.{Result, ok, err, File, holds, durable, save_json}
use hy.Traffic.{Usage}
use hy.Traffic.Meter.{
  Counters, MeterState, delta, metered, save_metered, counter_delta, previous_state, previous_rx,
  previous_tx,
}

unfoldable pub reported : Result Usage → ℕ
reported (ok usage) = usage.total
reported (err fault) = 0

-- The bytes that the meter reports over a list of readings on one port.
unfoldable pub total_metered : ℕ → List Counters → File MeterState → ℕ
unfolding counter_delta save_metered reported
total_metered port [] file = 0
total_metered port (reading ∷ readings) file =
    let r = counter_delta durable port reading file in
    reported r.0 + total_metered port readings r.1

-- The bytes of a counter before it was reset, or none.
abbrev pub lost : ℕ → ℕ → ℕ
lost current previous = if leb previous current then 0 else previous

-- The bytes that the counters held whenever they were found reset.
abbrev pub total_lost : List Counters → ℕ → ℕ → ℕ
total_lost [] rx tx = 0
total_lost (reading ∷ readings) rx tx =
    lost reading.rx rx + lost reading.tx tx + total_lost readings reading.rx reading.tx

abbrev pub last_total : List Counters → ℕ → ℕ → ℕ
last_total [] rx tx = rx + tx
last_total (reading ∷ readings) rx tx = last_total readings reading.rx reading.tx

delta-lost :
    (current previous : ℕ)
    → previous + delta current (some previous) ≡ current + lost current previous
unfolding delta
delta-lost current previous = ground arith

-- Over any readings on the port of the saved state, with durable writes, the bytes of the saved state
-- and the deltas that are returned are together the bytes of the last reading and those that the
-- counters held when they were reset: no byte is counted twice or lost.
pub total_metered_lem :
    (port : ℕ) (readings : List Counters) (state : MeterState)
    → state.port ≡ port
    → (state.rx + state.tx) + total_metered port readings (holds state)
      ≡ last_total readings state.rx state.tx + total_lost readings state.rx state.tx
unfolding total_metered counter_delta save_metered save_json metered previous_state previous_rx
    previous_tx
total_metered_lem port [] state e = omega arith
total_metered_lem port (reading ∷ readings) state e =
    let next : MeterState = record {
      port = port;
      rx = reading.rx;
      tx = reading.tx;
      total = reading.rx + reading.tx;
    } in
    let own : (state.port == port) ≡ true = ground arith in
    rw own (
      omega (
        arith,
        delta-lost reading.rx state.rx,
        delta-lost reading.tx state.tx,
        total_metered_lem port readings next refl,
      ))
