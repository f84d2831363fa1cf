-- ===== src/Lib.antt =====
-- The RISC-V programs of this repository's course projects: five simulators of RV32I,
-- two disassemblers and an executing disassembler, modelled from their C and C++ sources and proved
-- against one description of the instruction set.
--
-- The parts and their files:
--   * project_2/main.c is a simulator in one function. Simulator/Decode has `sign` and the fields of
--     an instruction word, Simulator/Alu the values of `case 0x13` and `case 0x33`, Simulator/Exec
--     the other cases of the `switch` and the lines that advance `pc`, Simulator/Run the loop, and
--     Simulator/Main `main` from its arguments to the registers it prints.
--   * proj2/my_project/dbswl.c is a simulator with a function for each instruction. Handlers/Decode
--     has `signExtend` and the fields, Handlers/Arith, Handlers/Jump and Handlers/Data the functions
--     `execute_add` to `execute_sw`, Handlers/Dispatch the `switch`, the step of the `PC` and the
--     loop, Handlers/Main `main`. Each definition bears the name of its function.
--   * project_1/main.c is a disassembler. Disassembler/Decode has the parts of a word,
--     Disassembler/Text the text of each case of its `switch`, Disassembler/Main its `main` and loop.
--   * proj2/my_project/ekdus.c is a simulator that keeps its program in memory, highest byte first.
--     BigEndian/Store has its helpers from `error` to `load_a_word`, BigEndian/Fields and
--     BigEndian/Exec `executeInst`, BigEndian/Run the copy of the program into memory and
--     the loop, BigEndian/Main `main`.
--   * proj1/icaproj1.c disassembles and executes: it prints the word that it is at and goes on as the
--     word says, over as many rounds as the file has words. Tracer/Fields has the fields,
--     Tracer/Text what each `case` prints, Tracer/Effect what it does to the registers and to
--     `current_i`, Tracer/Main `main` and its loop.
--   * proj1/main.cc is a disassembler in C++. Printer/Fields has the fields of a word, cut out by
--     shifts, and its immediates, Printer/Text the text of each `case`, Printer/Main `main`, its
--     loop, and the base in which `cout` prints.
--   * proj2/pa2/제출1.cc is a simulator in C++ that counts its program and its data in words.
--     Indexed/State has the variables of `main`, Indexed/Exec the `switch`, one definition for each
--     `case`, Indexed/Main `main` and its loop. Indexed/Shows says which machine of the manual a
--     state stands for.
--   * proj2/pa2/태환.c is a simulator on strings of binary digits. Strings/Blocks and Strings/Binary
--     have its functions from `pow` to `dectobin8`, Strings/Cut the strings that `main` cuts out of
--     an instruction, Strings/Memory its loads and stores, Strings/Exec the other branches of a round
--     and the loop. A string is the list of its characters; what `malloc` leaves in a block is a
--     parameter. The loop takes the strings of the instruction memory as an argument, since C leaves
--     undefined how `main` makes them: `str_temp` is read before it has a value, and `strcat` reads
--     past the four characters of `my_htob`. A load is undefined where its string does not end in its
--     block, and so are `sw` to data memory, which reads past the nine characters of `temp2`, and `sh`.
--   * Machine is the state that the simulators keep in globals: the program counter, the registers,
--     the memory, what is still to be typed, and what has been printed. An `Outcome` is the end of a
--     round: it goes on, `main` returns -1, or C leaves the behaviour undefined.
--   * Isa describes 37 instructions of RV32I as the unprivileged manual does, and reads no program:
--     instructions, their encoding, and in Isa/Meaning and Isa/Program what they do, with plain
--     arithmetic in place of masks and shifts. FENCE, ECALL and EBREAK are not in it: the simulators
--     have no case for them, and the disassemblers print them as unknown. The programs are proved
--     against it.
--   * Base, Bits and Word carry what the parts share: lists and arrays over native numbers, digits of
--     bitwise operations, and 32-bit arithmetic.
--
-- How C is read. An `int` or `unsigned int` is its bit pattern, a number below 2 ^ 32; arithmetic
-- wraps around, and `>>` on `int` copies the sign bit, as gcc compiles them. Files are little-endian,
-- as the host is. An access outside an array, and the value of a variable that `scanf` has not set,
-- are `fault`: nothing is assumed about them. In Tracer and Indexed `none` stands for that, and for
-- a shift by a negative amount or by 32 and more.
--
-- Fuel and bounds. The loops run for the count of rounds that the user gives, or over the words of a
-- file, as in the source, so that every definition is total. Two loops of proj2/pa2/태환.c run on
-- fuel: the division by 2 of an `int` of 31 digits, and the doubling of a length from 8 to 32 at
-- most, with fuel for 32 rounds each. The arrays have the sizes declared: 65536 bytes of data memory
-- in three simulators, 0x10010000 bytes in one, 16384 words in another.
--
-- Not modelled: `fopen`, `fread`, `malloc`, `atoi`, `scanf` and `printf`, whose results are arguments
-- (the contents of the files, whether memory was given, the numbers typed) and whose text is the list
-- of characters or the registers printed; C++ streams and `stoi` likewise; the other course programs
-- under proj1, proj2, project_0 and test; and Spike's own directories, which are copies of another
-- project.
pub mod Base
pub mod Bits
pub mod Word
pub mod Isa
pub mod Machine
pub mod Simulator
pub mod Handlers
pub mod Disassembler
pub mod BigEndian
pub mod Tracer
pub mod Printer
pub mod Indexed
pub mod Strings
