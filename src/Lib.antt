-- ===== src/Lib.antt =====
-- wasm-instrument: a verification library of the instrumentation framework's core.
--
-- The program reads a WebAssembly module into lists of declarations, lets a routine change them
-- through a set of primitives, and writes the module out. Instructions and declarations refer to
-- each other by address, and the writer looks the address up to get an index; so a list may change
-- without renumbering the code.
--
-- Parts, and the files that model them:
-- - Prelude: numbers, lists, `&` and `|` as arithmetic, and Result: a value, an exception that is
--   named after the place that throws it, or undefined behaviour.
-- - Leb: the LEB128 coders of src/common.cpp (DECODE_BODY, ENCODE_BODY). A w-bit integer is its bit
--   pattern. The encoder's loop has w / 7 + 1 rounds.
-- - Buffer: buffer_t and the read_ functions of src/common.cpp, as functions from a buffer to a
--   value and the buffer after. Buffer/Reads says what it is for a reader to take given bytes,
--   Buffer/Gives what its value satisfies, Buffer/Moves how far it goes.
-- - Writer: the encode_ functions of src/common.cpp that append bytes.
-- - Opcode: opcode_table of src/opcode_table.c, row for row with the numbers of wasmops.h
--   (Opcode/OneByte, Extension, Simd, WideSimd), and VALIDATE_OP, RD_OPCODE and WR_OPCODE of
--   inc/common.h.
-- - Ir: the declarations of inc/ir.h, with the lookups GET_LIST_ELEM, GET_LIST_IDX and
--   GET_DEQUE_IDX (Ir/Access), add_local and add_pages (Ir/Decls) and the printed names (Ir/Names)
--   of src/ir.cpp. An address is the number of a node; next_id is the next number, and no number
--   is used twice.
-- - Inst: the instruction classes of src/inst_internal.cpp (Inst/Classes, Inst/Values and Inst), the
--   choice of class of next_inst_from_buf in inc/inst_internal.h, and the loops over a function's
--   code, decode_expr_to_insts of src/parse.cpp and encode_expr_to_insts of src/encode.cpp. The
--   reading loop has a round for each byte and one more; each instruction takes a byte.
-- - Section: the sections of src/parse.cpp and src/encode.cpp. Section has limits, memory and table
--   types and the type section; Section/Decode the sections that fill the index spaces, the exports
--   and the start; Section/Bodies elements, code and data; Section/Custom the custom sections;
--   Section/Load decode_buffer and parse_bytecode; Section/Encode and Section/Store the writers, with
--   encode_module. A reader of a section goes from the module before to the module after. The loop
--   over the sections has a round for each byte and one more, and so has the loop over the
--   subsections of names; each round takes a byte. Section/Loads is the run over the sections as a
--   relation, with a section's frame spelled out, Section/Outcome the runs that end in an exception
--   or undefined behaviour, Section/Ordered the order of the sections, Section/Kept, Content, Joined
--   and Imports what each section keeps; Section/Framing and Chain are ENCODE_CALL against the loop;
--   Section/ImportsWritten is the writer of imports; Section/Types, Exports, Elements, Code and
--   CodeSection are the round trips, on the lemmas of Section/Written and Offsets.
-- - Instrument: the primitives of src/instrument.cpp that add (Instrument), find
--   (Instrument/Lookup, with get_main_fn of src/methods.cpp) and remove (Instrument/Remove).
--   Instrument/Spaces states what a well-formed module is: in each index space the imports come
--   first, in the order of the import list and as many as are counted; addresses are distinct and
--   below next_id; the pointer to the debug names is valid. remove_func_core compares an erased
--   iterator with the end of the list; the model takes the comparison as false.
-- - Views: gen_scopes_from_instructions of src/views.cpp, with ADD_SCOPE and REMOVE_SCOPE. An
--   iterator into the code and a pointer to a scope are positions; an int is its 32 bits.
--   Views/Depth is the nesting of code without `if`; Views/Blocks, Kept, Ended and Nested are the
--   walk over such code, Views/Ifs the walk over code with an `if`.
-- - Witness, and Leb/Tests: runs at concrete values.
--
-- Bounds: `uint32_t` counts and sizes wrap at 2 ^ 32. Where a module has a 32-bit number of
-- declarations, the theorems say so. A read past the memory that holds the module is undefined.
--
-- Not modelled: gen_func_static_scope_hierarchy of src/views.cpp, which returns a scope whose
-- pointers lead into a list that is gone; deepcopy, the builder, the patterns of src/methods.cpp
-- beyond get_main_fn, to_string, the routines and inspections under api, the C interface, main.cpp
-- and file I/O; the thread pool is another project's library.
pub mod Prelude
pub mod Leb
pub mod Buffer
pub mod Writer
pub mod Opcode
pub mod Ir
pub mod Inst
pub mod Section
pub mod Instrument
pub mod Views
pub mod Witness
