-- ===== src/Uuid/Minted.antt =====
-- The uuids that the cache mints.
use scopecache.Prelude.{ℕ, ◌+◌, ◌/◌, ◌%◌, ◌^◌, ◌<◌, ◌≡◌, refl, true, ◌&&◌, ◌==◌, arith}
use scopecache.Uuid.{new_uuid_v7, is_valid_v7}
use scopecache.Uuid.RoundTrip.{IsUuid}

byte : (n : ℕ) → n % 256 < 256
byte n = omega arith

version : (a b : ℕ) → a < 16 → b < 64 → ((112 + a) / 16 == 7 && (128 + b) / 64 == 2) ≡ true
version a b h k = ground arith

pub new_uuid_v7-IsUuid : (ms rand_a rand_b : ℕ) → IsUuid (new_uuid_v7 ms rand_a rand_b)
unfolding new_uuid_v7
new_uuid_v7-IsUuid ms rand_a rand_b = record {
  bytes = (
    byte (ms / 2 ^ 40),
    (
      byte (ms / 2 ^ 32),
      (
        byte (ms / 2 ^ 24),
        (
          byte (ms / 2 ^ 16),
          (
            byte (ms / 2 ^ 8),
            (
              byte ms,
              (
                omega arith,
                (
                  byte rand_a,
                  (
                    omega arith,
                    (
                      byte (rand_b / 2 ^ 48),
                      (
                        byte (rand_b / 2 ^ 40),
                        (
                          byte (rand_b / 2 ^ 32),
                          (
                            byte (rand_b / 2 ^ 24),
                            (byte (rand_b / 2 ^ 16), (byte (rand_b / 2 ^ 8), (byte rand_b, tt))),
                          ),
                        ),
                      ),
                    ),
                  ),
                ),
              ),
            ),
          ),
        ),
      ),
    ),
  );
  sixteen = refl;
}

pub new_uuid_v7_valid : (ms rand_a rand_b : ℕ) → is_valid_v7 (new_uuid_v7 ms rand_a rand_b) ≡ true
unfolding new_uuid_v7 is_valid_v7
new_uuid_v7_valid ms rand_a rand_b =
    version (rand_a / 2 ^ 8 % 16) (rand_b / 2 ^ 56 % 64) (omega arith) (omega arith)
