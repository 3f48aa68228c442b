-- ===== src/Conversion/Tests.antt =====
-- A converter made at second 100.
use dapper_distributed_traci.Prelude.{◌≡◌, refl, arith}
use dapper_distributed_traci.Prelude.Int.{pos}
use dapper_distributed_traci.Conversion.{
  TimestampConverter, logical_to_physical, physical_to_logical, adjust_timestamp, update_drift,
  negated, wrap_int64, in_milliseconds, add_duration, new_timestamp_converter,
}
use dapper_distributed_traci.Conversion.RoundTrip.{physical_to_logical-logical_to_physical}

abbrev converter : TimestampConverter
converter = record { base_time = 100_000_000_000; drift_estimate = pos 0 }

-- A client that is 2 ms ahead is put back by 2 ms.
put_back : adjust_timestamp 5_000_000 (update_drift (pos 2) (new_timestamp_converter 0)) ≡ 3_000_000
unfolding adjust_timestamp update_drift negated wrap_int64 in_milliseconds add_duration
    new_timestamp_converter
put_back = refl

physical_to_logical-logical_to_physical_example :
    physical_to_logical (logical_to_physical 42 converter) converter ≡ 42
physical_to_logical-logical_to_physical_example =
    physical_to_logical-logical_to_physical converter 42 (omega arith)
