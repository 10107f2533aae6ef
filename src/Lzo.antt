-- ===== src/Lzo.antt =====
-- src/commands/job/transform/lzo1x.rs: the LZO1X decompressor. Bytes are numbers below 256. The
-- position in the input is what is left of it. A sum of lengths does not wrap: an input of 2^56
-- bytes would be needed.
pub mod Operands
pub mod Safety
pub mod RoundTrip
pub mod Runs
use pigeon_cli.Base.{
  ℕ, zero, suc, ◌+◌, ◌-◌, ◌*◌, ◌/◌, ◌%◌, Bool, true, false, ◌&&◌, Option, none, some, List, [], ◌∷◌,
  ◌++◌,
}
use pigeon_cli.Base.Tests.{ltb, leb, ◌==◌, if◌then◌else◌, u64_mod}
use pigeon_cli.Base.Lists.{length, take, drop, get_elem?}
use pigeon_cli.Base.Outcome.{Result, ok, err, ◌>>=◌, ◌>>◌}

-- The errors; `panicked` is an index out of range, and `out_of_fuel` is the model's own.
pub data LzoError : Type 0 where
  input_ended length_overflow literals_past_end exceeds before_start empty_input : LzoError
  panicked out_of_fuel : LzoError

abbrev pub Read : Type 0
Read = Result LzoError (ℕ × List ℕ)

unfoldable pub byte : List ℕ → Read
byte [] = err input_ended
byte (c ∷ cs) = ok (c, cs)

-- The high byte is shifted behind the low one.
unfoldable pub le16 : List ℕ → Read
unfolding byte
le16 rest = do (low, r) ← byte rest; (high, r') ← byte r; ok (low + high * 256, r')

-- `count` zeros have been read.
unfoldable pub zero_run_from : ℕ → ℕ → List ℕ → Read
zero_run_from count base [] = err input_ended
zero_run_from count base (c ∷ cs) =
    let more = zero_run_from (count + 1) base cs in
    if c == 0
    then more
    else if ltb (count * 255) u64_mod && ltb (count * 255 + (base + c)) u64_mod
    then ok (count * 255 + (base + c), cs)
    else err length_overflow

unfoldable pub zero_run : ℕ → List ℕ → Read
unfolding zero_run_from
zero_run base rest = zero_run_from 0 base rest

-- What is left of the input, and the output.
pub record Decoder : Type 0 where
  pub rest : List ℕ
  pub out : List ℕ

unfoldable pub room : ℕ → List ℕ → ℕ → Result LzoError (Unit {0})
room max_len out n = if ltb max_len (length out + n) then err exceeds else ok tt

unfoldable pub literals : ℕ → ℕ → Decoder → Result LzoError Decoder
unfolding room
literals max_len n d =
    if ltb (length d.rest) n
    then err literals_past_end
    else do room max_len d.out n; ok (record { rest = drop n d.rest; out = d.out ++ take n d.rest })

-- The loop of `back_reference`, from `start + index` on.
unfoldable pub copy : ℕ → ℕ → List ℕ → Result LzoError (List ℕ)
copy zero start out = ok out
copy (suc n) start out = elim (get_elem? out start) [
  | none ↦ err panicked
  | some value ↦ copy n (suc start) (out ++ (value ∷ []))
]

unfoldable pub back_reference : ℕ → ℕ → ℕ → List ℕ → Result LzoError (List ℕ)
unfolding room copy
back_reference max_len distance n out =
    if ltb (length out) distance
    then err before_start
    else do room max_len out n; copy n (length out - distance) out

-- An instruction, with its operands read.
pub data Instruction : Type 0 where
  run_of : ℕ → Instruction
  match_ : (distance : ℕ) (length : ℕ) (next : ℕ) → Instruction
  finish : Instruction

abbrev pub Decoded : Type 0
Decoded = Result LzoError (Instruction × List ℕ)

-- `zero_run(base)`, where the bits of the instruction leave the length open.
abbrev pub open_length : ℕ → ℕ → ℕ → List ℕ → Read
open_length n least base r =
    if n == least then (do (z, r') ← zero_run base r; ok (z + least, r')) else ok (n, r)

-- A byte below 16 means three things.
unfoldable pub decode_low : ℕ → ℕ → List ℕ → Decoded
unfolding byte zero_run
decode_low state t r =
    if state == 0
    then (if t == 0
        then (do (z, r') ← zero_run 15 r; ok (run_of (z + 3), r'))
        else ok (run_of (t + 3), r))
    else do
      (b, r') ← byte r
      ok (
        if state == 4
            then match_ (1 + 2048 + t / 4 + b * 4) 3 (t % 4)
            else match_ (1 + t / 4 + b * 4) 2 (t % 4),
        r',
      )

unfoldable pub decode_m2 : ℕ → List ℕ → Decoded
unfolding byte
decode_m2 t r = do (b, r') ← byte r; ok (match_ (1 + t / 4 % 8 + b * 8) (t / 32 + 1) (t % 4), r')

unfoldable pub decode_m3 : ℕ → List ℕ → Decoded
unfolding zero_run le16
decode_m3 t r = do
  (n, r') ← open_length (t % 32 + 2) 2 31 r
  (v, r'') ← le16 r'
  ok (match_ (1 + v / 4) n (v % 4), r'')

-- The offset 0 marks the end of the stream.
unfoldable pub decode_m4 : ℕ → List ℕ → Decoded
unfolding zero_run le16
decode_m4 t r = do
  (n, r') ← open_length (t % 8 + 2) 2 7 r
  (v, r'') ← le16 r'
  ok (
    if t / 8 % 2 * 16384 + v / 4 == 0
        then finish
        else match_ (t / 8 % 2 * 16384 + v / 4 + 16384) n (v % 4),
    r'',
  )

unfoldable pub decode_by : ℕ → ℕ → List ℕ → Decoded
unfolding decode_low decode_m2 decode_m3 decode_m4
decode_by state t r =
    if ltb t 16
    then decode_low state t r
    else if leb 64 t
    then decode_m2 t r
    else if leb 32 t
    then decode_m3 t r
    else decode_m4 t r

unfoldable pub decode : ℕ → List ℕ → Decoded
unfolding byte decode_by
decode state rest = do (t, r) ← byte rest; decode_by state t r

-- What a turn of the loop does: it returns the output, or goes on in a state.
pub data Turn : Type 0 where
  finished : List ℕ → Turn
  going : ℕ → Decoder → Turn

unfoldable pub apply : ℕ → List ℕ → List ℕ → Instruction → Result LzoError Turn
unfolding literals back_reference
apply max_len out r (run_of n) = do
  d ← literals max_len n (record { rest = r; out = out })
  ok (going 4 d)
apply max_len out r (match_ distance n next) = do
  out' ← back_reference max_len distance n out
  d ← literals max_len next (record { rest = r; out = out' })
  ok (going next d)
apply max_len out r finish = ok (finished out)

unfoldable pub turn : ℕ → ℕ → Decoder → Result LzoError Turn
unfolding decode apply
turn max_len state d = do (instruction, r) ← decode state d.rest; apply max_len d.out r instruction

unfoldable pub loop : ℕ → ℕ → ℕ → Decoder → Result LzoError (List ℕ)
unfolding turn
loop zero max_len state d = err out_of_fuel
loop (suc fuel) max_len state d = elim (turn max_len state d) [
  | err e ↦ err e
  | ok (finished out) ↦ ok out
  | ok (going state' d') ↦ loop fuel max_len state' d'
]

-- A turn reads at least a byte, so the length of the input and one is fuel enough.
unfoldable pub decompress : ℕ → List ℕ → Result LzoError (List ℕ)
unfolding literals loop
decompress max_len [] = err empty_input
decompress max_len (first ∷ src) =
    if ltb 17 first
    then (do
      d ← literals max_len (first - 17) (record { rest = src; out = [] })
      loop (suc (length src)) max_len (if ltb (first - 17) 4 then first - 17 else 4) d)
    else loop (suc (suc (length src))) max_len 0 (record { rest = first ∷ src; out = [] })
