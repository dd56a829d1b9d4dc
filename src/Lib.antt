-- ===== src/Lib.antt =====
-- PassKeeper: a verification library for the password manager's C program.
--
-- The program is a command line tool, `pk`. passkeeper.c finds a command by its name (command.c),
-- the command reads its options (parse-option.c), and works on an encrypted database through
-- SQLCipher. Below the commands stand libraries of the program's own: growing byte buffers and
-- functions on C strings (src/strbuf.c), lists of strings (src/strlist.c), an edit distance for
-- mistyped commands (src/levenshtein.c), a merge sort (src/sort.c), and the conversion of keys
-- between bytes and text (src/security.c). This library models these, from the bottom up.
--
-- How C is modelled. A call comes to an `Outcome` (Prelude/Calls): `ok` with what it answers and
-- the objects it changed, `died` for die(), `bugged` for bug(), `exited` for exit(), and `fault`
-- for a read or a write outside an array or another step that C leaves undefined. A theorem that
-- a call `Returns` says that it ends, with no fault and no exit, and what holds of the answer. An
-- array is a list of cells, and every read and write is checked against its length
-- (Prelude/Memory). What malloc or realloc leaves unset reads as a parameter `junk`, and a
-- theorem is for every such value; that they give memory is assumed. A C string that is only read
-- is the list of its characters without the NUL. A size_t is a natural number below 2 ^ 64, and
-- sums that the code leaves unchecked are written modulo 2 ^ 64. Prelude/SizeT has the overflow
-- checks and CAPACITY_GROW of src/helper.h, and Prelude/Growth is about sizes for which they
-- pass.
--
-- The files:
--
-- - Strbuf: struct strbuf of src/strbuf.c and src/strbuf.h, with one function for each of the C
--   functions, under their names. A buffer is the null pointer, strbuf_defbuf or cells on the
--   heap. Strbuf/Room says when a buffer holds a text and that strbuf_grow makes room,
--   Strbuf/Refines and Strbuf/Printf treat the calls that add to it, Strbuf/Trim those that cut
--   it or hand it over, and Strbuf/Run any sequence of calls.
-- - Text: the functions of src/strbuf.c on plain strings. Text/Prefix has the prefixes and
--   concat, Text/Scanning the loop of u8substr, Text/Utf8 and Text/Characters what it answers.
-- - Strtou: strtou of src/strbuf.c, with the strtoul that it calls. Strtou/Numerals is about
--   numerals.
-- - Strlist: struct strlist of src/strlist.c and src/strlist.h. Strlist/Holding says what a list
--   holds and that a push adds to it, Strlist/Ends that a pop and a trunc take away;
--   Strlist/Fields and Strlist/Split, Strlist/Moving, Strlist/Filter and Strlist/FilterOne, and
--   Strlist/Join with its children are about splitting, filtering and joining. split_loop has
--   fuel, one more than the length of the string: every round but the last takes a delimiter out.
--   A freed string or ext is `dangling` or `freed` in the element that was erased; copies of its
--   pointer in other elements are not tracked.
-- - Levenshtein: levenshtein_w of src/levenshtein.c, with its three rows and the addition of an
--   int checked. Levenshtein/Script has the edit scripts, Levenshtein/Cells and
--   Levenshtein/Filling that the rows hold the least prices.
-- - MergeSort: merge_sort of src/sort.c on an array whose elements are cells, with its scratch
--   buffer. MergeSort/Merge is about merging lists, MergeSort/Loop and MergeSort/Sorts about the
--   arrays. The fuel of merge_sort_next bounds the depth of the calls, and the number of elements
--   is enough.
-- - Makekey: the text that cmd_makekey of src/command/makekey.c writes, with the random bytes as a
--   parameter; Makekey/Output is about what it says.
-- - AtexitChain: src/atexit-chain.c. What a function of the chain does is a parameter, and
--   AtexitChain/Reversed is about the order of the calls. apply_atexit_chain has fuel, one more
--   than the functions of the chain, where none of them pushes another.
-- - Filesys: prefix_filename of src/filesys.c on Linux, through the string buffer; Filesys/Names is
--   about what it answers.
-- - Options: src/parse-option.c, without the text of its messages. The variables that options set
--   are one array, and the arguments an array of pointers that ends with a null pointer. Options
--   has get_arg and what it calls, Options/Long parse_long_option, and Options/Next the parser
--   from parse_short_option up to parse_options. Options/Progress, Options/Modes, Options/Taking
--   and Options/Walk say how far an option moves along the arguments, Options/Going that none
--   ends the options, Options/Kept, Options/Rest and Options/Arguments what parse_options leaves,
--   Options/Fuel and Options/Rounds that its loops end, Options/Plain treats arguments without
--   options; Options/Exact, Options/Numbers and Options/Conflicts are about single options. The
--   loop over the switches of an argument has one round more than the argument has characters,
--   the loop over the arguments as many as there are arguments; the two modules about them say
--   that this is enough. Where malloc leaves the option of a command mode unset, reading it is a
--   fault.
-- - Cipher: src/cipher-config.c and src/cipher-config.h. Cipher has the file of settings, its
--   writer and its reader; Cipher/Bytes and Cipher/Fields are about the buffer that the writer
--   fills, a field at a time, Cipher/Written about what it writes, Cipher/Reading about what the
--   reader takes, and Cipher/Misread, Cipher/Stops, Cipher/Lost and Cipher/Unterminated about
--   what comes back of what was written. Cipher/Files has persist_cipher_config of
--   src/command/init.c and resolve_cipher_config, with SHA-256 as a parameter, and
--   Cipher/Persisted follows a file through them. Cipher/Sql is format_apply_cc_sqlstr,
--   Cipher/Applied, Cipher/Statements and Cipher/Printed are about its SQL. The reader's loop has
--   one round more than the file has bytes, and each round takes nine of them or more. A pointer
--   that is stored in an unsigned is a fault; a pointer of which some bytes are overwritten is
--   `clobbered`.
-- - Records: src/handle-record.c and src/handle-record.h, without SQLite. Records has the text of
--   a record, Records/Reader its reader, with COMMON_RECORD_MESSAGE and the content of the file
--   as parameters, and Records/Missing the name of a field that is missing. Records/Written is
--   about the text, Records/Pieces about its lines, Records/Lines and Records/Values about the
--   values that the reader takes, Records/OneLine about values of one line, Records/Assigned
--   about the record that comes of them, Records/Back about a text that comes back and
--   Records/Cancelled about one without values. The reader's loops have as many rounds as there
--   are lines, or two more.
-- - Compat: dirname.c, strchrnul.c, strnlen.c, strndup.c and strdup.c of src/compat, where malloc
--   may fail; Compat/Dirname is about dirname, with '/' as the separator.
-- - Hex: the conversions and the key tests of src/security.c, in place over one array. Hex/Digits
--   treats one byte by a table, Hex/Encode and Hex/Decode the loops of bin2hex and hex2bin, and
--   Hex/Blob blobs.
--
-- In every part the module Tests applies the theorems to concrete inputs and runs the code on
-- others, those among them where it goes wrong.
--
-- Not modelled: SQLite, SQLCipher and OpenSSL, which are libraries that the code calls;
-- processes, the editor, the spinner and the terminal, which are calls of the operating system;
-- src/compat/poll.c, which is a copy of another project's file; and, so far, the other commands,
-- the lookup of a command by its name, and the calls that bind a record to a statement of SQLite.
pub mod Prelude
pub mod Strbuf
pub mod Text
pub mod Strtou
pub mod Filesys
pub mod Options
pub mod Strlist
pub mod Levenshtein
pub mod MergeSort
pub mod Hex
pub mod Makekey
pub mod AtexitChain
pub mod Cipher
pub mod Records
pub mod Compat
