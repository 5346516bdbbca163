-- ===== src/Lib.antt =====
-- The parts of the Uncil implementation (src/ of the repository) that work on plain data, and the
-- theorems that make them correct.
--
-- Arithm       src/uarithm.c: the integer operators that the virtual machine calls for `+`, `-`,
--              `*`, `//`, `%`, `<<` and `>>`, and the overflow tests that make it fall back on
--              floats. `shiftl` is unc0_shiftl, and so for the others.
-- Vlq          src/uvlq.c: the integer codes in which the compiler writes operands and constants
--              and from which the virtual machine reads them. `vlqencz` is unc0_vlqencz, and so on.
-- Utf8         src/uutf.c: encoding, decoding, validation and the stepping over characters on
--              which string indexing and slicing rest. `utf8dec` is unc0_utf8dec, and so on.
-- Memory       src/umem.c: the one function through which every allocation goes, with its second
--              attempt after a garbage collection. The host's function is a parameter; that it
--              keeps the bytes of a block is what docs/API.md asks of it.
-- Blob         src/ublob.c over Memory: byte buffers that grow and shrink. `blobadd` is
--              unc0_blobadd, and so on; the specification is the list of the bytes in use.
-- Encoding     src/utxt.c, and unc0_cconv_utf8ts of src/uutf.c: the character encodings of text files.
--              Encode has the encoders, which read UTF-8 character by character; `utf16_dec` is
--              the loop of the two UTF-16 decoders, and so on; Table puts them together as
--              unc0_adddefaultencs does. The output callback is a parameter.
-- HashTable    src/uhash.c: the chained hash tables that hold names, modules and dictionaries.
--              `put` is unc0_puthtbls, and so on, over any keys; Strings and Values have the
--              keys, Sets is the set of strings with their indices, and Names is the table of the encodings' names of src/utxt.c. The
--              specification is what `lookup` finds for every key. Whether an allocation
--              succeeds, and the hashes and equality of values, are parameters.
-- Lexer        src/ulex.c: the switches of kwtrie, which tell a keyword from an identifier, as a
--              tree (Keywords), and the integer literals up to the end of their digits (Integers).
-- Optimizer    src/uoptim.c with the tables of instructions of src/uparse.c: the passes over the
--              code of a function that turn calls into tail calls (TailCalls), merge chains of
--              jumps (Jumps) and delete dead code (DeadCode). `tailcalls` is tailcalls, and so on;
--              Passes puts them together as unc0_optqcode does behind reducetmp.
-- Stack        src/ustack.c: the value stacks of a view. `push` is unc0_stackpush, and so on, and
--              `run` makes one of these calls. A value is anything; whether a reallocation
--              succeeds is a parameter, and so is the null value.
-- Prelude      the library names that these share, lists measured by native numbers, integers as
--              a sign and a magnitude with their wrap-around, and the bit masks as arithmetic.
--
-- An Unc_Int has 64 bits in two's complement, an Unc_UChar 32 bits; sums and products that the C
-- code computes in a signed type wrap around, as they do on the machines that it is written for,
-- and `>>` is arithmetic. A buffer is the list of its bytes, a pointer into it the list from there
-- on or an offset. A read past the end of a buffer and an undefined shift are `none`.
--
-- Fuel: `byte_length` has eight rounds, as many as a 64-bit number has bytes; `validate_loop` has
-- one more round than the input has bytes, and so have `encode_loop` and `utf8ts_loop`; `pat_loop`
-- has as many rounds as there are bytes, each of which takes one; `compact_loop` has one more round
-- than there are buckets, which each round halves; `mergejmps_i` has the 256 calls of the source; `scan` has as many
-- rounds as there are instructions, since it only goes forwards, and `scan_pending` one more, since each of its
-- scans marks an instruction; `utf8enc` takes the number of calls that may be
-- nested.
--
-- Not modelled: the floating-point half of src/uarithm.c; the decoders that take a copy of the
-- pointer and getendianness of src/uvlq.c; unc0_utf8reshiftlz of src/uutf.c; the locks of
-- src/ublob.c and its functions that only wrap others; the freeing of the tables of src/uhash.c and
-- its value tables as keyed by bytes; the collector, which is a parameter; and the rest of the
-- implementation: the lexer's loop with its identifiers, strings and floats, the parser, the
-- compiler, reducetmp of src/uoptim.c, the first allocation and the unwinding of the stacks, the virtual machine, the other containers and the standard
-- library.
pub mod Prelude
pub mod Arithm
pub mod Vlq
pub mod Utf8
pub mod Memory
pub mod Blob
pub mod Encoding
pub mod HashTable
pub mod Lexer
pub mod Optimizer
pub mod Stack
