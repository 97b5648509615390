-- ===== src/Lib.antt =====
-- A model of the Java virtual machine geevm, with what it computes proved.
--
-- geevm executes Java class files: a class file is parsed, its methods' descriptors give the types of
-- their parameters, and the interpreter runs the byte code of a method on a call frame. The parts that
-- are modelled, with paths from the repository's root:
--
-- * Descriptor.antt and its children are src/class_file/Descriptor.cpp and Descriptor.h: `parse` is
--   `FieldType::parse`, `parse_method` is `MethodDescriptor::parse`. A grammar of the texts
--   (Descriptor/Grammar) is what the parsers are compared with. Descriptor/Slots has the sizes and the
--   stack slots, Descriptor/JavaNames the names that are printed.
-- * Opcode.antt is src/class_file/Opcode.def: `code_of` gives the byte of an opcode, `opcode_of` reads it.
-- * ByteStream.antt is src/common/ByteStream.h, and StackMap.antt src/vm/StackMap.cpp: the frames of a
--   method's `StackMapTable`, `parse_stack_map`, and the one for a position, `frame_at`, from which the
--   garbage collector knows the references of a frame. StackMap/Frames writes such a table.
-- * RootList.antt is src/vm/RootList.cpp, the list of pinned references, on a store of nodes; `IsLinked`
--   in RootList/Links says that it is linked both ways through its entries.
-- * GcRoots.antt and its children are src/vm/GcRoots.cpp: which slots of a frame hold references. The
--   abstract interpreter has one flag for each slot; StackOps, Instructions and Execute have its switch,
--   Width is `bytesConsumedByOpcode`, and Compute has the loops, `FrameRoots::compute` and the references
--   of a frame. `Flags` says which flags lie on the stack, Effects/Table what each instruction takes and
--   leaves, and a list of instructions in Walking is what code is laid out from.
-- * GarbageCollector.antt and GarbageCollector/Collecting are src/vm/GarbageCollector.cpp: `copy_object`,
--   `process_references` and `scan`, and `perform_garbage_collection` and `allocate` with every kind of
--   root: pinned references, static fields, and the slots of the frames that GcRoots flags. Outcome has
--   the specification: `Collectable` is what a collection needs, `Collected` what it leaves. Invariant
--   has what holds while objects are copied.
-- * Encoding.antt is `decodeJvmUtf8` of src/common/Encoding.cpp; Encoding/RoundTrip has the two encodings
--   of a code point that it translates between.
-- * Class.antt is the part of src/vm/Class.cpp that gives fields their places, `link_fields` and
--   `prepare_static_fields`; Class/Hierarchy is `is_instance_of`, `has_super_interface`, `lookup_field` and
--   `get_virtual_method`. Class/Hierarchy/Subtyping has the rules for casts (`Castable`) that the first is
--   compared with.
-- * Frame.antt is src/vm/Frame.h: the state of a call frame, `CallFrame`, and one function for each of
--   its members. Frame/Stack says what the operand stack holds (`Holds`, on the list of slots `view`),
--   Frame/Operands does so for values of one slot or two, Frame/Reading for the bytes of the code.
-- * Instance.antt is the part of src/vm/Instance.h that arrays need, with src/common/JvmError.h.
-- * Interpreter.antt and its children are src/vm/Interpreter.cpp: StackOps (`pop` to `swap`), Integers
--   and Arithmetic, Jumps, Arrays, Exceptions, Instructions (loads, stores, constants) and Execute (the
--   loop, with all the opcodes). Interpreter/Machine has the state: the frame, the exception of the
--   thread (`throwException` of src/vm/Thread.cpp) and the heap. Each opcode of `execute` is a clause of
--   `execute_opcode`, which composes these functions as the switch of the source does.
--
-- An operation returns a `Result`: `fault` stands for a failed `assert`, a call of `geevm_panic` or of
-- `GEEVM_UNREACHBLE`, or what C++ leaves undefined, such as signed overflow or an access outside of an
-- array. A value of a fixed width is its bit pattern, a number below `2 ^ w`; `signed w` reads it. An
-- operand of two slots has its value in the lower one; the upper one is never written.
--
-- Floating-point numbers are a parameter (`Floats`) on bit patterns: the language's own arithmetic on
-- them is not described. What the interpreter asks of the loaded classes (`Runtime`) is one as well:
-- resolving a class, `isInstanceOf`, building an exception object, and the instructions on fields,
-- methods, constants and new objects.
--
-- The collector's memory maps an address to the object that starts there. The values of an object stand at
-- the byte offsets of its fields, those of an array at their indices; a collection reads and writes whole
-- values only. The order in which the maps of classes and fields are iterated is that of a list. What a
-- class's constant pool resolves to (`Constants`) is a parameter of the abstract interpreter.
--
-- Loops are structural recursion, but for some on fuel. The padding of the switches is skipped on
-- fuel 4, which is enough because at most three bytes are skipped. The destructor of a root list takes
-- as much fuel as the list has nodes. `execute` takes as many rounds as its fuel, since byte code need
-- not end. The two loops of GcRoots over code take as many rounds as the position where they end, since
-- each round reads a byte; the one of the collector takes as many as the region has bytes, since each
-- object takes one. `decode_jvm_utf8` takes as many rounds as there are bytes; its index has 16 bits, and
-- wraps around in a text of 65536 bytes or more. The searches along superclasses and interfaces take as
-- much fuel as a class weighs, for a weight that counts the paths to what it extends (`Weighted`); such a
-- weight exists where no class extends itself.
--
-- Not modelled: the part of src/vm/StackMap.cpp that is compiled out; the marks
-- that the collector leaves for a sanitizer; threads and monitors; native methods and JNI; preparing and
-- initializing classes, the class loader, and the reading of class files and archives.
pub mod ByteStream
pub mod Class
pub mod Descriptor
pub mod Encoding
pub mod Frame
pub mod GarbageCollector
pub mod GcRoots
pub mod Instance
pub mod Interpreter
pub mod Opcode
pub mod Prelude
pub mod RootList
pub mod StackMap
