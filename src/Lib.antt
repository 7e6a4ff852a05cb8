-- ===== src/Lib.antt =====
-- The reader of Scryer Prolog, from bytes to characters to tokens to terms, and its arithmetic.
--
-- The program reads a clause in steps. A CharReader (src/parser/char_reader.rs) decodes the bytes of
-- a stream, one character ahead. The lexer (src/parser/lexer.rs) takes characters from a
-- stream, by the character classes of src/parser/macros.rs, and gives tokens. The parser
-- (src/parser/parser.rs) shifts the tokens up to the end token onto a stack of descriptors and a
-- vector of terms, and reduces by the priorities of the operator directories of src/parser/ast.rs.
-- The term that is left is what the rest of the system compiles, prints or copies.
--
-- Arithmetic (src/machine/arithmetic_ops.rs, src/arithmetic.rs) works on a Number: a 56-bit fixnum, a
-- big integer, a rational or a float. An operation on fixnums is done on machine words, and by big
-- integers where those overflow. arith_eval_by_metacall evaluates a term by a stack of numbers.
--
-- Files:
--   Base       shared types and lemmas: Boolean tests over the native numbers, lists with a native
--              length, texts (lists of code points), integers, flag bits.
--   Numerics   the arithmetic libraries that the reader calls: big integers, rationals and floats,
--              as a record of types and functions that the reader takes as an instance.
--   Ast        src/parser/ast.rs. OpDeclSpec and Flags: the seven kinds of operators and the flag
--              word of a descriptor. OpDir: descriptors and directories, with CompositeOpDir::get as
--              composite_get; the map of the `indexmap` crate is the record IndexMap, with its
--              documented laws of `get` and `insert`. Fixnum: the 56-bit integers as a bit field,
--              with get_num, neg, bit_not (`Not`), checked_abs; debug_build, debug_neg and
--              debug_bit_not have the assertion of a debug build in them.
--              Term: Literal, Var, Term and unfold_by_str. Error: ParserError.
--   Chars      src/parser/macros.rs: one function for each class. The predicates of Rust's `char`
--              are a record with their values on ASCII as laws.
--   CharReader src/parser/char_reader.rs. Utf8: the standard library's UTF-8, on lists of bytes, with
--              its proofs below. Reader: the methods, over a reader `Read` of the standard library
--              with the documented laws of `read`; `Read::read` of a CharReader is read_bytes. The
--              loop of peek_char is peek_round, run at most five times. Contents, Rounds: proofs.
--   Lexer      src/parser/lexer.rs, one function for each method. State: the characters left, the
--              line and the column, and a monad of results. Layout, Quoted, Number, Token: the
--              methods for layout and comments, quoted items and escapes, numbers, and tokens.
--   Parser     src/parser/parser.rs, one function for each method. State: TokenDesc, the record
--              Parser and the methods that push; the vectors `stack`, `terms` and `tokens` are
--              lists whose head is the vector's last element. Operators: get_op_desc, and Default
--              on the directory of default_op_dir. ReduceOp,
--              PartialString, Compound, Lists, Brackets: the reductions. Shift: shift, shift_op,
--              negate_number, shift_token. Read: read_tokens and read_term. Invariant and its
--              children: what the stack and the terms have to do with each other and with the
--              tokens read. ReduceOp.Normal: where reduce_op stops.
--   Arithmetic src/machine/arithmetic_ops.rs, src/arithmetic.rs and `Number` of src/forms.rs, one
--              function for each operation. Interface: the `dashu` and `divrem` libraries and the
--              floats of the processor, with the laws that integers are exact. Number, Float, Sum,
--              Division, Bitwise, Gcd, Power, Rounding, Order: the operations, where `add`, `sub`
--              and the like keep their names, `float` is to_float and `is_zero` is is_zero_number.
--              Eval: arith_eval_by_metacall, over the cells that the post-order iterator gives.
--              Iterator, Compile: the iterator over a term to be compiled, the choice of instructions
--              and what src/machine/dispatch.rs computes for them. The children Exact, Floor, Shift, Divisors,
--              Errors, Blame, Tree, PostOrder and Agreement hold the proofs.
--   Example    a concrete environment (ASCII, numbers as numerals, an association list as the map
--              of some operators), runs of the reader, and the theorems at concrete inputs.
--
-- Partial code. A result is of the data type Outcome with the constructors ok, err and out_of_fuel. The
-- loops of the lexer that skip or collect characters are structural on the characters left, or run
-- on fuel of their number and one or two more, since each round takes a character. reduce_loop runs
-- on the length of the stack, which every round makes shorter.
--
-- In arithmetic, a result is `ok` or `err`, and an evaluation may panic besides. `shr` and `shl` call
-- one another on a negative shift and run on a number of calls, two of which are enough. The loops of
-- isize_gcd run on the numbers themselves, which each round makes smaller, and the loop of
-- binary_pow on the power.
--
-- What is simplified. An atom is its text, and an arena entry its value: the concurrent atom table
-- and the arena are memory management. A stream is the list of its characters and a flag that says
-- whether its end is a read failure, and is not yet put on a CharReader. OpDesc is its decoded pair.
-- Terms carry no Cell bookkeeping of the machine. The definitions are those of a release build; of the
-- debug assertions, that of build_with_unchecked is modelled beside it.
--
-- An error of arithmetic is what it names, before it is laid out on the heap.
--
-- Not modelled: read_exact and read_vectored of the character reader, the registers that
-- compiled arithmetic works on, the abstract machine, its heap and stacks, the compiler and the
-- indexing of clauses, the writer, streams, foreign calls, the build-time generator, and the Prolog libraries.
pub mod Base
pub mod Numerics
pub mod Ast
pub mod Chars
pub mod CharReader
pub mod Arithmetic
pub mod Lexer
pub mod Parser
pub mod Example
