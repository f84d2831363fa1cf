-- ===== src/Handlers/Main/Laws.antt =====
-- `main` never gives up in its loop, and prints what the manual says.
use mathlib.Core.List.{map}
use f_ca.Base.{
  ℕ, zero, suc, ◌/◌, ◌^◌, ◌≤◌, ◌<◌, ◌≡◌, ◌≢◌, refl, true, List, ◌++◌, All, length, le→leb, get_or,
  arith,
}
use f_ca.Base.Int.{ℤ, pos}
use f_ca.Word.{IsWord}
use f_ca.Machine.{Machine, initial, Outcome, next, fails, fault, ◌>>=◌}
use f_ca.Isa.{Instr, encode, IsInstr}
use f_ca.Isa.Bounds.{encode-words}
use f_ca.Simulator.Decode.{Fields}
use f_ca.Simulator.Main.{bytes, success, with_data}
use f_ca.Simulator.Main.Laws.{write_words, read-write_words, initial-IsValid}
use f_ca.Handlers.Decode.{decode}
use f_ca.Handlers.Data.{
  scan, execute_lb, execute_lh, execute_lw, execute_lbu, execute_lhu, execute_sb, execute_sh,
  execute_sw,
}
use f_ca.Handlers.Dispatch.{loads, stores, dispatch, advance, round, step, run}
use f_ca.Handlers.Trace.{Trace, run-Trace}
use f_ca.Handlers.Main.{print_registers, finish, read_data, with_data_file, execute_file, main}

-- A round does not make `main` return: it goes on, or the behaviour is undefined.
bind-returns :
    (o : Outcome) (k : Machine → Outcome)
    → ((m m' : Machine) → o ≢ fails m')
    → ((m m' : Machine) → k m ≢ fails m')
    → (m' : Machine) → (o >>= k) ≢ fails m'
bind-returns (next m) k h h' m' = h' m m'
bind-returns (fails m) k h h' m' = λ e. h m m refl
bind-returns fault k h h' m' = λ e. ground arith

module _ (rd rs1 imm : ℕ) (m m' : Machine) where
  scan-goes_on : scan rd m ≢ fails m'
  unfolding scan
  scan-goes_on e = ground arith

  lb-goes_on : execute_lb rd rs1 imm m ≢ fails m'
  unfolding execute_lb
  lb-goes_on e = ground arith

  lh-goes_on : execute_lh rd rs1 imm m ≢ fails m'
  unfolding execute_lh
  lh-goes_on e = ground arith

  lw-goes_on : execute_lw rd rs1 imm m ≢ fails m'
  unfolding execute_lw
  lw-goes_on e = ground (arith, scan-goes_on)

  lbu-goes_on : execute_lbu rd rs1 imm m ≢ fails m'
  unfolding execute_lbu
  lbu-goes_on e = ground arith

  lhu-goes_on : execute_lhu rd rs1 imm m ≢ fails m'
  unfolding execute_lhu
  lhu-goes_on e = ground arith

  sb-goes_on : execute_sb rd rs1 imm m ≢ fails m'
  unfolding execute_sb
  sb-goes_on e = ground arith

  sh-goes_on : execute_sh rd rs1 imm m ≢ fails m'
  unfolding execute_sh
  sh-goes_on e = ground arith

  sw-goes_on : execute_sw rd rs1 imm m ≢ fails m'
  unfolding execute_sw
  sw-goes_on e = ground arith

module _ (f : Fields) (m m' : Machine) where
  loads-goes_on : loads f m ≢ fails m'
  unfolding loads
  loads-goes_on e = ground (
    arith,
    lb-goes_on f.rd f.rs1 f.imm_i m m',
    lh-goes_on f.rd f.rs1 f.imm_i m m',
    lw-goes_on f.rd f.rs1 f.imm_i m m',
    lbu-goes_on f.rd f.rs1 f.imm_i m m',
    lhu-goes_on f.rd f.rs1 f.imm_i m m',
  )

  stores-goes_on : stores f m ≢ fails m'
  unfolding stores
  stores-goes_on e = ground (
    arith,
    sb-goes_on f.rs2 f.rs1 f.imm_s m m',
    sh-goes_on f.rs2 f.rs1 f.imm_s m m',
    sw-goes_on f.rs2 f.rs1 f.imm_s m m',
  )

  dispatch-goes_on : dispatch f m ≢ fails m'
  unfolding dispatch
  dispatch-goes_on e = ground (arith, loads-goes_on, stores-goes_on)

round-goes_on : (f : Fields) (m m' : Machine) → round f m ≢ fails m'
unfolding round
round-goes_on f m m' =
    bind-returns (dispatch f m) (λ n. next (advance f n)) (λ _. dispatch-goes_on f m)
      (λ n n' e. ground arith) m'

-- The loop never makes `main` return early, on any words, for any count of rounds.
pub run-goes_on : (n : ℕ) (buffer : List ℕ) (m m' : Machine) → run n buffer m ≢ fails m'
unfolding run step
run-goes_on zero buffer m m' = λ e. ground arith
run-goes_on (suc n) buffer m m' = λ e. ground (
  arith,
  bind-returns (step buffer m) (run n buffer)
      (λ _. round-goes_on (decode (get_or buffer (m.pc / 4) 0)) m) (run-goes_on n buffer) m',
)

-- With four arguments, the file of a program (and up to three bytes behind it), a data file of at
-- most 65536 bytes, and where `malloc` succeeds: when the manual's run from the loaded machine is a
-- trace of faithful steps, `main` prints the characters and the registers of the machine at its end.
pub main-Trace :
    (program : List Instr) (content typed tail : List ℕ) (n : ℕ) (argv2 : ℤ) (m : Machine)
    → All IsInstr program
    → All (λ b. b < 2 ^ 8) content
    → All IsWord typed
    → length tail < 4
    → length content ≤ 65536
    → Trace program n (read_data content (initial typed)) m
    → main 4
        (bytes (write_words (map encode program) ++ tail))
        (bytes content)
        argv2
        (pos n)
        true
        typed
      ≡ success m.output (print_registers 32 0 m)
unfolding main execute_file with_data_file finish read_data with_data
main-Trace program content typed tail n argv2 m ok bytes_ok words short_tail fits trace =
    let valid = initial-IsValid content typed bytes_ok words in
    rw
      (
        read-write_words (map encode program) tail (encode-words program ok) short_tail,
        le→leb (length content) 65536 fits,
        run-Trace program ok valid trace,
      )
      refl
