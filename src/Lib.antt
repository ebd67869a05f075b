-- ===== src/Lib.antt =====
-- mepl: the lexer program (c/), the sources of characters that it reads (buf/), the strings that
-- it collects lexemes in (lib/), and the prototypes under ideas/ of its later parts.
--
-- The parts and their files:
--   - Prelude: lists, tests on numbers, and how a C function ends (Prelude/Ends): with a value, by
--     exit(), by an access out of bounds, or out of fuel.
--   - Memory: byte arrays, `char` and `int`, <string.h> and <ctype.h>, strhash() of
--     lib/include/lib.h. A block is the list of its bytes, a pointer an offset into it.
--   - Dstr: lib/include/dstr.h and lib/src/dstr.c. Dstr/Content says when a string holds some bytes;
--     Dstr/Check, Dstr/Put, Dstr/Grow and Dstr/Push have the operations in that state.
--   - Buf: buf/include/buf.h; Buf/Cstr, Buf/Nstr, Buf/Stdio and Buf/Unix are the sources of
--     characters of buf/src/, each with a child Stream about the contract IsStream of Buf, which the
--     lexer takes as a parameter; Buf/Copy is the loop of buf/test/main.c.
--   - Lex: c/include/lex.h and c/src/lex.c, over any buf. Lex/Scan says what the lexer is to make of a
--     text; Lex/Tables, Lex/State, Lex/Loops and Lex/Next relate the two.
--   - Main: c/main.c. Main/Tokens has the lines that a text stands for, Main/Prints the program.
--   - Ptrset: ideas/ptrset, with list_set.c (Ptrset/ListSet), fixset.c (Ptrset/Fixset),
--     dynarr_set.c (Ptrset/DynarrSet), hash.c (Ptrset/Hash, whose children are about the primes,
--     the chains, tables of chains, and the hash as a set) and bst_set.c (Ptrset/KidTree has its
--     trees, with the search in Ptrset/KidTree/Find and the rotations in Ptrset/KidTree/Rotate, on
--     trees with parent pointers in Ptrset/KidTree/Linked and single writes in
--     Ptrset/KidTree/Writes, and the search behind a rotation in Ptrset/KidTree/Search;
--     Ptrset/BstSet is the set on top of them, with the repair of a tree in Ptrset/BstSet/Fix).
--   - Ast: ideas/ast, with the code generator (Ast/Reglist, Ast/Gen) and the dump (Ast/Dump), and
--     the first version ideas/ast.c (Ast/Sketch).
--   - Slab: ideas/slab_v2/ring.h (Slab/Ring), with the indices that go round it (Slab/Mask,
--     Slab/Ring/Place) and the queue that it holds (Slab/Ring/Queue).
--   - Free: ideas/free, with bitset.h (Free/Bitset, on the digits of words in Free/Word and their
--     number in Free/Count), free_node.h (Free/Node; Free/Node/High has the slots that a search
--     comes to, Free/Node/Pool the operations), list.h (Free/Links: Free/Links/Store is about single
--     links, the other children about the circular list that they make up), ring.h (Free/NodeRing)
--     and main.c (Free/Freelist, with the list of pools in order in Free/Freelist/Order).
--   - Heap: ideas/heap/main.c, on the links of Free/Links (Heap/Blocks has the heap in order, Heap/Get
--     the search for a block).
--   - Slabs: ideas/slab, with slab.h (Slabs/Stack: Slabs/Stack/Free has the stack of free elements,
--     Slabs/Stack/Held those that are free or held), slab_tab.c and tab.h (Slabs/Table: its children
--     are about finding an entry, the table from start to exit, and getting and putting), and the
--     threads that wait for an element (Slabs/Waiting, with the macros of lib.h of that directory as
--     steps, one for each access to the slab; Slabs/Waiting/Safe has the invariant, Slabs/Waiting/Race
--     what s_put() without the mutex may do, and Slabs/Waiting/Lost a wake-up that is lost).
--   - Dynarr: ideas/dynarr/main.c, on the links of Free/Links. Dynarr/Registered has the pointers that
--     are kept, Dynarr/Push, Dynarr/Grow and Dynarr/Pointers the operations.
--   - Tests: concrete inputs.
--
-- State and operations: a struct is a record, and an operation a function of the same name from the
-- old state to the new one. main() makes a buf_stdio on standard input and a lexer on it; lex_next()
-- calls the buf through `b_getc`, and dstr_push() for every character of a lexeme. `debug` says
-- whether the build has DBUG, whose tests then end the process. realloc() is a parameter, with what
-- is relied on in IsRealloc (Dstr/Put): it grants requests up to a limit, gives blocks of the size
-- that was asked for, and keeps the old bytes. BUF_STDIO_DATA_SIZE, BUF_UNIX_DATA_SIZE
-- and DARR_CAP_INIT are parameters too.
--
-- Bounds and fuel: `size_t` wraps at 2 ^ 64. The loops of the lexer and of main() have fuel, one more
-- than the characters of the input being enough: each round of a loop in the lexer reads a
-- character, and each token is at least one. That of hash.c bounds the search for a prime: it is to
-- reach up to a prime that is at least twice the capacity. That of freelist_get() and
-- heap_get() is for two rounds more than there are pools in the list, or free blocks, and those of
-- ideas/dynarr for one round more than there are links; that of the search in Ptrset/KidTree is for
-- one round more than the tree has kids.
--
-- Not modelled: freed memory, the texts of messages, hash_stat() of ideas/ptrset, the slab of
-- ideas/slab_v2, the clients of ideas/slab, the benchmark and the checks of ideas/dynarr, ideas/ld,
-- and the generators under scripts/, which write the tables of c/src/lex.c that are modelled here.
pub mod Prelude
pub mod Memory
pub mod Dstr
pub mod Buf
pub mod Lex
pub mod Main
pub mod Ptrset
pub mod Ast
pub mod Tests
pub mod Slab
pub mod Free
pub mod Heap
pub mod Dynarr
pub mod Slabs
