-- ===== src/Lib.antt =====
-- Verification of SigScheme, an R5RS Scheme interpreter in C.
--
-- The development models parts of the C library and proves what makes them correct. Scheme objects
-- are a data type, the cells that they refer to a heap that operations take and give back, and an
-- error (ERR, ERR_OBJ) is an outcome beside the heap that the operation leaves. A loop over a list
-- of the program, which can be circular, runs on fuel; each theorem about it says how much is
-- enough, and its conclusion is that the call returns.
--
-- Base: shared names, lists over the native numbers, integers, and the arithmetic of bit masks.
--
-- Encoding (src/encoding.c, include/sigscheme/encoding.h): the table of function pointers of a codec
-- is the record CharCodec. Encoding has the operations that every codec shares (scm_mb_strlen,
-- scm_mb_substring, scm_charcodec_read_char), and Encoding/Laws the contract that they ask of a
-- codec, RoundTrips for one character and ScansWithin for any string. Encoding/Utf8, Eucjp, Euc,
-- Sjis and Unibyte are the encodings, function by function, and their child modules fill the
-- contract; Encoding/Codecs is the table of codecs with the search by name. The argument `strict` is
-- the build option SCM_STRICT_ENCODING_CHECK. A string is the list of its bytes, so that pointer and
-- size are one value; character values are natural numbers, since the negative ones stand for the end
-- of input, which is `none` here. Shift states are left out, as no codec has one.
--
-- Object (include/sigscheme/sigscheme.h): objects, pairs, the heap, EQ and outcomes. Numbers and
-- characters are immediate values, as in the compact storage. Object/Chain says what a list in the
-- heap is: its elements, its end, and what later allocations cannot change.
--
-- Pairs (src/list.c): the procedures on pairs, scm_length with its encoded results, and in
-- Pairs/Traverse append on the queue of ScmQueue, reverse, list-tail, list-ref, memq and assq with
-- their kin. EQVP and EQUALP are arguments where they can differ from EQ. The number of pairs is
-- bounded by the heap, so that counters do not overflow and are natural numbers.
--
-- Env (src/env.c): environments as lists of frames in the heap, without SCM_USE_R7RS and with
-- SCM_USE_HYGIENIC_MACRO. A reference to a variable is a VarRef, where `ref_wild` stands for REF_CAR
-- or REF_CDR of an object that is no pair. Env/Validate has the validators and Env/Toplevel the values
-- of symbols. Fuel bounds the formals of a frame and the number of frames.
--
-- Symbol (src/symbol.c): the symbol table as an array of lists of numbered symbols, with their names
-- and values. The hash keeps the wrap-around of uint32_t.
--
-- Gc (src/storage-gc.c): the vector of protected variables, and the collector with the fatty storage. A
-- heap is the address of its first cell with its cells, of which Gc/Memory keeps whether they are free
-- and whether they are marked; what a cell refers to is a function from addresses to Content.
-- Gc/Mark is marking from the roots, on fuel; Gc/Sweep the sweep with the list of free cells;
-- Gc/Collect the collection, new heaps and scm_alloc_cell. The words that the scan of the stack finds
-- and the address of a new heap are arguments. Gc/RootCells says what can be reached from the roots,
-- and Gc/Safety and Gc/Collected that just this is kept.
--
-- Number (src/number.c, reduce of src/eval.c): fixnums as integers with the greatest one as an argument,
-- in a build without SCM_USE_REAL. A call gives a Result, which is a value, an error or no end in
-- sight, and leaves the heap alone. Number/Reduction has the operators with the state that they get
-- and leave, and `reduce` over arguments that are evaluated; Number/Procedures the procedures of one
-- or two numbers, Number/Gcd and Number/Expt the loops. C division truncates, as tdiv and tmod of
-- Base/Int do.
--
-- Unicode (src/unicode.c): the binary searches in the tables of ranges and of full case mappings, with
-- the tables of src/unicode-table.c as arguments that the theorems take to be sorted. Unicode/Search
-- is the loop, whose fuel is one more than the length of the table, Unicode/Linear the search from
-- the first element on that it agrees with.
--
-- NumberIo (src/number-io.c): scm_int2string with its buffer, number->string, and string->number with
-- radix and exactness prefixes, in a build without SCM_USE_REAL. strtol is an argument, with
-- ReadsDigits as what is relied on; scm_int_t is as wide as long, fixnums may have fewer bits, as in
-- the compact storage, and int has 32 bits. The room of the buffer is the fuel
-- of the loop, so that a result says that it was enough.
--
-- Vector (src/vector.c): vectors in a store of their own beside the heap of pairs, which a procedure that
-- changes it takes and gives back.
--
-- Continuation (src/continuation.c): the dynamic extent as a list of frames known by their pairs, the
-- stack of nested continuations, dynamic-wind, and the call of a continuation: the part before
-- LONGJMP, and the part of call/cc behind SETJMP when it is jumped back to. The procedures that are
-- called are an argument, scm_call with the rest of the program as a world; exit_dynamic_extent runs
-- on fuel, of which one more than the number of frames that are left is enough.
--
-- Macro (src/macro.c): hygienic macros in a build without R7RS. Forms are trees of pairs, identifiers
-- and other atoms, where an identifier is a number and atoms have one number where equal? holds; the
-- markers of compiled patterns and templates are two more constructors. Macro is the compiler,
-- Macro/Matcher the matcher with its two passes, Macro/Transcription the transcription with the
-- indices of the ellipses around a template, and Macro/Expansion syntax-rules and the choice of a rule.
-- A step of the matcher leaves ctx->sub at a mismatch too, since the second pass is taken as it ends.
-- Each loop of the transcription runs on fuel, of which one more than the number of pairs in the
-- arguments is enough where the template of a rule is its pattern. Macro/Shape says what a pattern
-- captures, Macro/Matched, Macro/Widths, Macro/Invalid and Macro/Passes compare the matcher with it, Macro/Reference, Macro/Exhausted and Macro/Instance follow the
-- indices, Macro/Inversion, Macro/Compiled, Macro/Patterns, Macro/Templates and Macro/RoundTrip the
-- compiler, and Macro/Renaming the wrapped identifiers. Vectors are left out, and
-- scm_identifierequalp and scm_wrap_identifier are arguments.
--
-- Promise (src/promise.c): promises with the boxes that delay-force shares, on the heap of pairs. The call
-- of a thunk is an argument, a procedure that can change the heap, raise an error or run for ever. The
-- loop of force runs on fuel, of which one more than the length of a chain of delay-force is enough.
--
-- Not modelled: the storage layout of cells, the evaluator, the reader and the printer, ports,
-- how call/cc makes a continuation and calls its procedure, and the library system; see the manifest of components.
pub mod Base
pub mod Encoding
pub mod Object
pub mod Pairs
pub mod Env
pub mod Symbol
pub mod Gc
pub mod Number
pub mod Unicode
pub mod NumberIo
pub mod Vector
pub mod Continuation
pub mod Macro
pub mod Promise
