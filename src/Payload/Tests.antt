-- ===== src/Payload/Tests.antt =====
-- A build command that is sent and read back.
use rmake.Base.{ℕ, ◌≡◌, true, none, some, [], ◌∷◌}
use rmake.Freezing.{InstallJob}
use rmake.Freezing.Samples.{plain, plain-ConaryLaws}
use rmake.Payload.{
  Class, Wire, Payload, build, payload_to_dict, load_payload_from_dict, get_required_flavors,
}
use rmake.Payload.RoundTrip.{received, load-payload_to_dict}

-- All objects are numbers.
abbrev numbers : Class ℕ
numbers = record { Object = ℕ; freeze = λ n. n; thaw = λ n. n }

abbrev wire : Wire
wire = record {
  conary = plain;
  Blob = ℕ;
  node = numbers;
  events = numbers;
  machine = numbers;
  resolve_job = numbers;
  job = numbers;
  config = numbers;
  trove = numbers;
  failure = numbers;
}

abbrev glibc : InstallJob plain
glibc = record { name = 6; old = (some 1, some 2); version = 3; flavor = 4; is_absolute = true }

abbrev sent : Payload wire
sent =
    build 11 12 (glibc ∷ []) [] [] 13 (record { name = 1; version = 2; flavor = none } ∷ [])
      (some 0)

load-payload_to_dict_example :
    (load_payload_from_dict wire (payload_to_dict wire sent) ≡ received wire sent)
    × (get_required_flavors wire (load_payload_from_dict wire (payload_to_dict wire sent))
        ≡ get_required_flavors wire sent)
load-payload_to_dict_example = load-payload_to_dict wire plain-ConaryLaws sent
