-- ===== src/Tests/Device.antt =====
-- Serial ports for the tests: a device that answers each request at once, and a descriptor that is not
-- open.
use batterysystem.Common.{ℕ, refl, List, [], ◌++◌, take, drop, length-take}
use batterysystem.Serial.Port.{got, failed, Port, IsBounded, IsOpen, IsClosed, IsSilent}
use batterysystem.Serial.Exchange.Closed.{Settles, Settles-flushed}

-- The world is the bytes on their way to the program.
abbrev pub device : (List ℕ → List ℕ) → Port
device reply = record {
  World = List ℕ;
  read = λ w n. (got (take n w), drop n w);
  write = λ bytes w. w ++ reply bytes;
  flush = λ w. [];
  sleep = λ n w. w;
}

pub device-IsBounded : (reply : List ℕ → List ℕ) → IsBounded (device reply)
device-IsBounded reply = record { size-read = λ w n. length-take n w }

pub device-IsOpen : (reply : List ℕ → List ℕ) → IsOpen (device reply)
device-IsOpen reply = record { read-ne-failed = λ w n. λ e. cc }

pub device-Settles : (reply : List ℕ → List ℕ) (w : List ℕ) → Settles (device reply) 2 w
device-Settles reply w = Settles-flushed (device reply) w refl

-- A device that sends the same bytes for ever.
abbrev pub babbler : List ℕ → Port
babbler bytes = record {
  World = Unit {0};
  read = λ w n. (got (take n bytes), w);
  write = λ _ w. w;
  flush = λ w. w;
  sleep = λ n w. w;
}

abbrev pub closed : Port
closed = record {
  World = Unit {0};
  read = λ w n. (failed, w);
  write = λ bytes w. w;
  flush = λ w. w;
  sleep = λ n w. w;
}

pub closed-IsClosed : IsClosed closed
closed-IsClosed = record { read-eq-failed = λ w n. refl }

-- A sensor that is disconnected.
abbrev pub silent : Port
silent = record {
  World = Unit {0};
  read = λ w n. (got [], w);
  write = λ bytes w. w;
  flush = λ w. w;
  sleep = λ n w. w;
}

pub silent-IsSilent : IsSilent silent
silent-IsSilent = record { read-eq-nil = λ w n. refl }
