-- ===== src/Uart/Read/Tests.antt =====
-- A read of two bytes that fails twice.
use clpsz_demos.Base.{
  ◌≡◌, refl, none, some, List, [], ◌∷◌, Bytes, true, false, arith, take, drop, codes,
}
use clpsz_demos.Uart.Read.{
  Attempt, arriving, ser_hal_read, read_loop, complaints, ser_hal_read-arriving,
}

abbrev attempts : List Attempt
attempts =
    record { selected = true; byte = none }
    ∷ record { selected = true; byte = some 64 }
    ∷ record { selected = false; byte = none }
    ∷ record { selected = true; byte = some 62 }
    ∷ record { selected = true; byte = some 6 }
    ∷ []

two_bytes :
    ser_hal_read attempts 2
    ≡ some (
      64 ∷ 62 ∷ [],
      codes "read()" ∷ codes "select()" ∷ codes "read()" ∷ [],
      record { selected = true; byte = some 6 } ∷ [],
    )
unfolding ser_hal_read read_loop complaints
two_bytes = refl

ser_hal_read-arriving_example :
    (said : List Bytes) × (rest : List Attempt) × (ser_hal_read attempts 2
      ≡ some (take 2 (arriving attempts), said, rest))
    × (arriving rest ≡ drop 2 (arriving attempts))
unfolding arriving
ser_hal_read-arriving_example = ser_hal_read-arriving attempts 2 (omega arith)
