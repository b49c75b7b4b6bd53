-- ===== src/Lib.antt =====
-- A verification library for PyMOTW-3. Its own core program is the LaTeX writer, which turns the
-- document tree that docutils and Sphinx build from the chapters into the LaTeX of the printed
-- edition; around it stand the tasks of the build and the example programs of the chapters, each a
-- program of its own.
--
-- The files from Writer to Transform model the writer, source/_exts/pearson/writer.py:
--   * Prelude: Python's integers, texts, lists and dicts as far as the programs use them (`str`,
--     `replace`, `split`, `strip`, `sorted`, sets in the order of insertion), with white space that is
--     that of ASCII, and programs that change a state and may raise (Program).
--   * Writer/Node: the tree. The classes are those with a `visit_` method; a subtree's attributes are
--     a record, with `none` or `false` for one that is missing. Nodes are compared by their `uid`.
--   * Writer/State: the attributes of PearsonLaTeXTranslator, set by `init` as in `__init__`. The
--     lists that `self.body` refers to are the elements of `buffers`, so that an alias of a list
--     (`tablebody`, `tableheaders`, the caption of a table) is its number. The methods are functions
--     from the state to a value or an exception and the state then.
--   * Writer/Text: `encode`, `idescape`, `hypertarget` and their kin, the sets of ids that wait for
--     their float, and the restriction of footnotes.
--   * Writer/Structure, Titles, Desc, Lists, Tables, Inline and Figures: `visit_NAME` and `depart_NAME`
--     under their own names, those of references, notes, images, index and code in child modules,
--     with a helper for what is nested in one of them; Writer/Dispatch: the
--     methods of a line or two, and the choice of the method by the class of the node.
--   * Writer/Walk: `node.walkabout(visitor)`. It is docutils', and so a parameter; `IsWalker` is what
--     docutils documents of it, with a bound on the nested calls, as Python's recursion has one.
--   * Writer/Balance: the frame, the part of the state that a node has to leave as it found it, not all
--     of it (Frame), the rules for actions that keep it (Rules, Texts, Blocks, Parts, Special, Notes),
--     those for what a visit opens and its departure closes (Moves, Brackets, Holding, Counts, Terms,
--     Titles, Opened, Captions, Files), tables, inside of which the body is another one (Tabular,
--     Closing, Groups), the step at every kind of node (Neutral, Kinds), the whole tree (Whole) and the
--     root (Document).
--   * Writer/Laws: what single parts do; Clines, Labels, Levels, Footnotes, and the Examples.
--   * Front: ExtBabel, the babel commands, `generate_numfig_format`, `generate_indices` and
--     `format_docclass`; Front/Elements: the elements of the header. Formats and Updates hold laws.
--   * Transform: ShowUrlsTransform, as far as it decides what follows a link and how the footnotes
--     are numbered. The fuel is the number of tries for one number.
-- The others model the tasks and the example programs:
--   * Select: the echo servers of source/select, in which the answers of the system are a parameter
--     (World, PollWorld), given for each call by the number of calls before; send answers how many
--     characters it took, which the servers do not look at. Echo models
--     select_echo_server.py and the loop of select_echo_server_timeout.py, Poll models
--     select_poll_echo_server.py. The fuel is the number of turns; the loops themselves are endless.
--     Owes, Queues and Echoes, Once, Listed and Outputs, Drain and Leaving hold the proofs on the first,
--     Sound, Agree, Hanging, PollSafe and PollLoop those on the last.
--   * Shelve: the importer of source/sys/sys_shelve_importer.py. Module objects are numbers, their
--     attributes a table; shelves, os.path.join and the code of a module are parameters. Laws holds what
--     is found and the parent packages, Loading the loads of a module.
--   * Build: of pavement.py the cleanups of the output of programs, the choice of the module and the
--     posts for the blog. What pyquery finds in a page is an argument. Rulers and Posts hold the laws.
--   * Readline: the completers of source/readline, in readline_completer.py and readline_buffer.py. The
--     line and the part of it that is completed are an argument. Collect asks for all matches.
--   * MapReduce: SimpleMapReduce of source/multiprocessing/multiprocessing_mapreduce.py, with the test of
--     keys as an argument, and the map of the pool as the map in order, as it is documented.
--   * Zlib: the handlers of source/zlib/zlib_server.py and source/bz2/bz2_server.py. The compressor is a
--     parameter, and a send takes all of its data. Their loops have as many turns as there are
--     characters, and one more, and Sent shows that these are enough.
--
-- A parameter (the record `Env`) stands for what the writer takes from elsewhere: the tables of
-- characters and `educate_quotes`, the messages in the language of the book, `astext` and `traverse` of
-- docutils, `split_into`, the images of the builder and its settings.
--
-- Not modelled: the highlighting of code by Pygments, which the writer prepares and never uses, the
-- template of the header, and the insertion of the new footnotes into the tree. The other extensions and
-- most example programs are not modelled, nor is bin/sitemap_gen.py, a copy of another project's
-- tool. A depth of the table of contents below 0 is left out, and so are widths, precisions and the
-- conversions r and a in the title of a numbered reference, where the model raises `outside_model`. No
-- line of the writer fills `remember_multirow`, so that rows with cells of several rows are modelled as
-- the code would treat them. Printing and logging are left out of the
-- example programs, save where they can raise.

pub mod Prelude
pub mod Writer
pub mod Front
pub mod Transform
pub mod Select
pub mod Shelve
pub mod Build
pub mod Readline
pub mod MapReduce
pub mod Zlib
