-- ===== src/Lib.antt =====
-- NoiseAI: the denoising engine, the ring buffers, and the audio driver's end of them.
--
-- The program takes microphone audio, removes noise from it in frames of 480 mono samples, and
-- hands it to a virtual audio device. The app calls the engine (engine/src/engine.cpp), which
-- routes whole frames to RNNoise or to a DeepFilterNet model in ONNX Runtime
-- (engine/src/deepfilter.cpp); the bridge writes what the engine returns to a ring buffer in
-- shared memory (engine/src/shared_ring_buffer.cpp); the driver (driver/src/io_handler.cpp), in
-- another process, reads from it in its callbacks. engine/src/ring_buffer.cpp is the same ring
-- buffer inside one process.
--
-- Base has the shared vocabulary: Boolean tests, lists over the native numbers, machine words,
-- `memcpy`, and the option monad, in which `none` is undefined behaviour (an access outside an
-- array, a division by zero, a null pointer).
--
-- Circular is the code that both ring buffers share, the two copies in and out of a circular
-- array; Circular/Holds relates the wrapping 64-bit words to the positions they stand for. Queue
-- is what a ring buffer promises. Spsc is `SPSCRingBuffer`, Shared is `SharedRingBuffer` on a
-- mapped segment: `write` and `read` of each become `write` and `read` on a record of their
-- fields, with the caller's array passed in and out, whole calls one after another. Spsc/Threads
-- has one producer thread and one consumer thread inside `write` and `read`, as a step relation:
-- a step loads the other thread's position, copies, or stores the thread's own position.
-- Spsc/Atomic is what a load may return, under release and acquire: not the newest word, but none
-- older than one seen before. A copy is one step; Spsc/Threads/Races is about the cells of copies
-- that overlap in time. Shared/Processes is the same for the app and the driver on a shared
-- segment, with the steps of `flush` besides.
--
-- Shared/Posix is the system, a parameter: the calls that `SharedRingBuffer` makes, and what is
-- documented of them, over names, descriptors, mappings and objects. Every call may fail. Over
-- it, Shared/Handle has the constructor and the destructor, Shared/Lifetime and Shared/Sharing
-- what they leave behind, and Bridge/Segment `noise_shm_create`, `noise_shm_destroy`,
-- `noise_engine_destroy` and the driver's opening of the same name. Shared/Machine is a small
-- system on which this is tested, over Shared/Objects.
--
-- Float is all that the code does with a `float`, as an interface: nothing is assumed of the
-- arithmetic, and of the order only where a theorem says so. Frames has the frame size.
--
-- DeepFilter is `DeepFilterEngine`, and Engine is `Engine`: Engine/Settings, Engine/ModelPath,
-- Engine/Lifecycle, Engine/Chunk (`process_mono_chunk`) and Engine/Process (`process_frame`) have
-- its methods, on the record of its fields that Engine declares. Delay is what its output promises.
-- RNNoise, ONNX Runtime, the clock, the files and the executable's path are parameters. Proofs are
-- in the modules named for what they prove: Engine/Valid is the invariant, Engine/Heard what frames
-- are to become, without the buffers, Engine/Denoise one denoised frame, Engine/Counters the
-- overload counters, Engine/Chunks one chunk,
-- Engine/Loop the loop over chunks, Engine/Interleave the two conversions, Engine/Output what is
-- given out, Engine/Answer the whole method, Engine/Cushion why the output does not run dry,
-- Engine/Overload, Engine/Switch and Engine/Fallback the fallback to passthrough, Engine/Feed and
-- Engine/Partition how input divides into calls, Engine/Limits the range of the output,
-- Engine/Refusal an engine that is not running, Engine/Choice the model file, and Engine/Api,
-- Engine/Preserve and Engine/Reachable the histories of calls.
--
-- Driver is `IOHandler`, with the outcome of opening the shared memory as an argument, and the
-- contents of the segment as they are at each callback. Driver/Device has the device and the
-- plug-in's entry point (driver/src/device.cpp, driver/src/plugin.cpp), over the classes of
-- libASPL. Of the proofs, Driver/Connect and Driver/Reconnect are about connecting, Driver/Plays,
-- Driver/Stale and Driver/Fresh about a callback, Driver/Plugin about the entry point.
--
-- Bridge is the C interface (bridge/src/noise_bridge.cpp): a context of an engine and the
-- producer's buffer. Bridge/Writes is the app's callback, which composes the two. Placeholders are
-- the routines that the engine does not call yet (engine/src/inference.cpp, resampler.cpp, stft.cpp
-- and post_process.cpp).
--
-- Live has the app and the driver as processes of one system, each with the buffers that it opens
-- itself, over the calls of POSIX. Live/Driver is `IOHandler` again, in which opening, reading
-- and letting go of a buffer are such calls, and Live/App the calls of the bridge that write;
-- Live/Buffers are the methods that they use, on a mapping. Live/Follows and Live/Starts relate
-- the process to the handler of Driver, by way of Live/Guests (a consumer's buffers), Live/Keeps
-- (what a consumer leaves), Live/Connects, Live/Sims and Live/Serves. Live/System is the two
-- processes: their calls, and the end of the app's process, in any order, with the samples that
-- the app has handed on as a list that the code does not keep. Live/Sound is the invariant of
-- that system, and its modules what each call makes of it. Live/Delivers is one call of the app
-- and the driver's next callback, and Live/Restart the app that ends and starts again.
-- Shared/Willing is a system whose calls do not fail.
--
-- The loop of `process_frame` runs on fuel, one more than the samples that are buffered: each round
-- takes 480 of them, so the fuel is never spent. All other loops are structural recursion. The
-- arrays of one call are below 2^32 samples, where the index `i * channels_ + ch` does not wrap.
--
-- Not modelled: logging; memory that is freed; the heartbeat and the active flag between the
-- steps of two processes; calls of two processes that overlap, but for `write`, `read` and
-- `flush`; the app.
pub mod Base
pub mod Circular
pub mod Queue
pub mod Delay
pub mod Spsc
pub mod Shared
pub mod Float
pub mod Frames
pub mod DeepFilter
pub mod Engine
pub mod Driver
pub mod Bridge
pub mod Live
pub mod Placeholders
