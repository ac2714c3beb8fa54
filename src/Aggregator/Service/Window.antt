-- ===== src/Aggregator/Service/Window.antt =====
-- The epoch of a new service.
use craftec_core.Aggregator.Collector as Collector
use craftec_core.Aggregator.Collector.{Directory, ReceiptCollector, u64_add}
use craftec_core.Aggregator.Service.{
  AggregatorConfig, AggregatorService, persist_epoch, new_service,
}
use craftec_core.Settlement.Fee.{u64_max}
use craftec_core.Prelude.{
  ℕ, ◌+◌, ◌*◌, ◌/◌, ◌≤◌, ◌<◌, ◌==◌, leb, true, false, Option, none, some, arith, ◌≡◌, refl,
}
use native.Mathlib.Nat.{div-mul-le_self, lt-div-mul-add, mul-div_cancel}

-- The window of a collector, at an epoch and a duration, with the present inside.
pub IsWindow : ℕ → ℕ → ℕ → ReceiptCollector → Type 0
IsWindow now epoch d c =
    (c.epoch_start ≡ epoch * d)
    × (c.epoch_end ≡ epoch * d + d)
    × (c.epoch_start ≤ now)
    × (now < c.epoch_end)

persist_epoch-IsWindow :
    (dir : Option Directory) (now epoch d grace : ℕ)
    → epoch * d ≤ now
    → now < epoch * d + d
    → IsWindow now epoch d
        (persist_epoch dir epoch (Collector.new (epoch * d) (epoch * d + d) grace))
unfolding IsWindow
persist_epoch-IsWindow none now epoch d grace low high = (refl, refl, low, high)
persist_epoch-IsWindow (some dir) now epoch d grace low high = (refl, refl, low, high)

-- If the duration is not 0 and the present plus a duration fits a `u64`, a new service is made, whose
-- window is that of its epoch, is as long as the duration, and contains the present.
pub new_service-IsWindow :
    (config : AggregatorConfig) (now : ℕ)
    → 0 < config.epoch_duration_secs
    → now + config.epoch_duration_secs ≤ u64_max
    → (s : AggregatorService) × (new_service config now ≡ some s)
      × IsWindow now s.current_epoch config.epoch_duration_secs s.collector
unfolding new_service
new_service-IsWindow config now positive fits =
    let d : ℕ = config.epoch_duration_secs in
    let epoch : ℕ = now / d in
    let low : epoch * d ≤ now = div-mul-le_self now d in
    let high : now < epoch * d + d = lt-div-mul-add positive in
    let nonzero : (d == 0) ≡ false = ground arith in
    let product : leb (epoch * d) u64_max ≡ true = ground arith in
    let sum : leb (epoch * d + d) u64_max ≡ true = ground arith in
    let back : epoch * d / d ≡ epoch = mul-div_cancel epoch positive in
    (
      record {
        config = config;
        collector =
            persist_epoch config.data_dir epoch
              (Collector.new (epoch * d) (epoch * d + d) config.grace_period_secs);
        current_epoch = epoch;
      },
      rw (nonzero, product, sum, back) refl,
      persist_epoch-IsWindow config.data_dir now epoch d config.grace_period_secs low high,
    )
