-- ===== src/Lib.antt =====
-- A model of libpressio, a library that gives lossy and lossless compressors one interface. Paths
-- are from the repository's root, as in src/pressio_option.cc and include/libpressio_ext/cpp/data.h.
--
-- The program. A caller configures a compressor through a map of options (pressio_options), whose
-- values are of one of eighteen types (pressio_option) and convert into each other. Keys belong to
-- hierarchical names, and a read for a name falls back to its ancestors. Data is passed in buffers
-- (pressio_data), which have an element type, dimensions and memory (pressio_memory) that a domain
-- allocates. A compressor (libpressio_compressor_plugin) runs its derived class between the hooks
-- of a metrics plugin; plugins are built by name from registries. Meta compressors run others: a
-- pipeline one after another, chunking on the blocks of a buffer. The domain manager moves buffers
-- between the domains, and serializers send options to other processes.
--
-- The files.
--   Base: names from the libraries, Boolean tests, lists, texts as lists of bytes, association lists
--     for std::map, and integers with the wrap-around of machine words.
--   Dtype: include/pressio_dtype.h, src/pressio_dtype.cc.
--   PressioOption: struct pressio_option. Host holds the floating types, Decimal the texts of integers
--     that the C++ library reads and prints, Numeric the arithmetic types and static_cast, Cell
--     the variant with type, has_value and set_type, Names the names of enumerators, Convert and
--     As the function `as` by the type held, and cast_set. Lossless, ResultType and RoundTrip hold
--     proofs.
--   Names: src/pressio_names.cc. Search has the functions, Ancestors and Termination proofs.
--   PressioOptions: struct pressio_options of include/libpressio_ext/cpp/options.h. Map has the
--     changes and Access the reads; Laws and Reads hold proofs.
--   Memory: class pressio_memory of src/pressio_memory.cc. Heap has the malloc and non-owning domains
--     (src/plugins/domains) over a heap of numbered blocks, Ops the operations, Ownership proofs.
--   Data: struct pressio_data. Defs is the buffer as an option holds it, with its elements; Buffer the
--     same struct over its memory, with constructors and shape operations; Sizes the sizes; Select
--     the argument check of select; ForEach the dispatch on element types. Shape, SelectBounds and
--     Covers hold proofs.
--   Compressor: src/plugins/compressors/compressor_base.cc, src/pressio_errorable.cc. Base has the
--     class with its hooks; Metrics and Many hold proofs.
--   Registry: include/libpressio_ext/cpp/registry.h.
--   Delta: src/plugins/compressors/delta_encoding.cc, on the elements of a buffer.
--   Serial: src/serializable.cc over a channel. Comm is the channel with its laws, Codes the numbers of
--     enumerators, Send, Recv and Bcast the serializers; RoundTrip and Agreement hold proofs.
--   Pipeline: src/plugins/compressors/pipeline.cc and resize.cc. Store has reads and writes through
--     pointers, Header the header of the output, Compress and Decompress the operations, Resize the
--     other plugin; HeaderTrip, Output, Chain, Errors and RoundTrip hold proofs.
--   Domains: struct pressio_domain_manager of include/libpressio_ext/cpp/domain_manager.h, and
--     is_accessible of src/pressio_domain.cc, over the memory of Memory. Manager has the operations and
--     Hooks the calls of the metrics; Readable and Copied hold proofs.
--   Chunking: src/plugins/compressors/chunking_impl.cc and chunking.cc. Blocks has the loops that copy
--     between a buffer and its blocks, Run chunk_data and restore_data, Plugin the chunks that are
--     made, Compress and Decompress the operations of the plugin. Loops, Copies, Plane and Volume turn
--     the loops into lists of indices, Inside and Undo show that each element is copied and comes back,
--     Sizes and Arith what does not wrap around, Contigous, Unsplit and InPlace when nothing need be
--     copied, Views, Format and Chunks what the plugin writes and reads; RoundTrip, Generic and
--     PluginTrip hold what follows.
--   Iterator: src/multi_dimensional_iterator.h. Range has the constructor and the access to an element;
--     Offset and Position hold proofs.
--   Groups: include/libpressio_ext/cpp/subgroup_manager.h in Subgroups, and the responses that
--     src/plugins/compressors/many_independent.cc handles in Responses; Arrival holds proofs.
--   Tests: the properties at concrete inputs.
--
-- How the code is read. A method that changes its object returns the new object; exceptions, null
-- pointer accesses and accesses outside a buffer are values (PressioOptions.Access, Memory.Heap,
-- Delta). Machine words are native numbers with the wrap-around written out; size_t has 64 bits.
-- The loop of search runs on fuel; the length of the normal form plus one is enough where the loop
-- ends. All other loops follow a list or count up to a number. std::malloc, the conversions of
-- floating numbers, the arithmetic of elements, the calls of MPI, the bytes of memory that is not
-- written and the virtual functions of derived classes are parameters. Pipeline and Chunking hold a
-- buffer as a value, its type, dimensions and elements, and a view of it as the same value. The
-- OpenMP loops of Chunking run in their order: their rounds write to different blocks. What
-- dispatch_generic of chunking_impl.cc does after its test is any function: the properties hold for
-- all of them. To free a pointer that is no block of the heap changes nothing, where C++ leaves it
-- undefined; the channel's broadcast of a value is taken to be the message that sends it, so what is
-- compared is the serializers over it; the status of a response, which many_independent.cc
-- overwrites, is not accumulated.
--
-- Not modelled: the order of the keys of a map, copies and deleters of user pointers, the copying
-- loop of select, transpose, the meta options of a compressor (check_options, get_options and
-- set_options), the options of domains and of meta compressors, the cuda and user domains, buffers of
-- four and more dimensions whose strides wrap around in chunking_impl.cc, ranges of ranges and the
-- stepping of iterators, the work queue of many_independent.cc, which is another library's, and the
-- broadcast after it, time measurements, the metrics, input and output plugins, wrappers of external
-- compressors, the parser of the output of external programs, the JSON and hash functions, and the C
-- interface, which forwards to the methods.
pub mod Base
pub mod Dtype
pub mod Data
pub mod Groups
pub mod Iterator
pub mod Memory
pub mod PressioOption
pub mod Names
pub mod PressioOptions
pub mod Compressor
pub mod Registry
pub mod Delta
pub mod Serial
pub mod Pipeline
pub mod Domains
pub mod Chunking
pub mod Tests
