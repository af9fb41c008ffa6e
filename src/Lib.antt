-- ===== src/Lib.antt =====
-- Lucifer, a laser show controller: verified models of its core.
--
-- The program. The engine (src/engine.cpp) keeps a table of frame sources, trees whose leaves are
-- static frames and whose inner nodes are effects such as the frame sequencer. Each projector head
-- (src/head.cpp) runs in a thread of its own. It owns a playback list, the table slots that are
-- selected for it, and a driver for the hardware. When the driver asks for data, the head takes
-- frames from the playback of the current source, moves on along its list when the source has no
-- more, resamples the points and gives them to the driver. Buttons and the MotorMix control surface
-- change selections and choose heads.
--
-- The files.
--   Prelude: the library names used, Boolean tests, lists, integers and options over the native
--     numbers. Random: `std::random_shuffle`, a parameter of which it is known that it permutes.
--   Playlist: `PlaybackList` of src/playbacklist.cpp. The state is a record of its members; each
--     slot is one function of the same name, in lower case with underscores; the signals emitted
--     are kept in the state. The mutual recursion of `select` and `next` ends at `next (false)`,
--     which selects nothing. `clicked` is `Engine::clicked`.
--   Sequencer: `FrameSequencer` of src/framesequencer.cpp over a node's children, a record
--     `Children` of their `nextFrame` and `reset`. `Settings` is the node, `Playback` its playback.
--     The failures of its assertions and reads outside its table are `none`.
--   MotorMix: src/motormix.cpp, src/controlsurface.cpp and `MIDIChannel::send` of src/midi.cpp.
--     `Switches` is the table of controls; `Surface` has the members of `MotorMix` and of its base.
--     Display has the messages; the timer is the time it was started for, and what the row shows is
--     read off the bytes sent.
--   Head: `LaserHead` of src/head.cpp with the list of Playlist inside. `Devices` are the parts it
--     calls: playbacks, resampler, driver. A handler of a signal of the list runs when the slot
--     that emitted it is done; the handlers touch members that the slots do not.
--   DummyIlda: src/driver_dummy_ilda.cpp, and that it is a driver for Head.
--   StaticFrame: src/staticframe.cpp, its playback and its file format, over the attributes and
--     tokens of SourceTree.Xml. `Qt` is what Qt does with numbers and base 64, of which `ReadsBack`
--     states what the loader relies on.
--   Ilda: src/loadilda.cpp and the palettes of src/ildapallette.h. `DataStream` is Qt's stream, of
--     which `ReadsBytes` and `ReadsFile` state that it reads the bytes in front. File is the loop
--     of load over the sections; it takes fuel.
--   Engine: the table of sources of src/engine.cpp, in Heads the heads that it keeps, and in Shows
--     the threads ShowSaver and ShowLoader, over the trees of SourceTree and their XML. `Document`
--     is what they use of Qt besides, `DocumentReads` what they rely on. Files has the calls that
--     start these threads and the slots at their ends, with the locks, the pointers and their
--     objects' lives, and the thread that imports files.
--   SourceTree: src/framesource_impl.cpp. A node has the name of its class, its data and its
--     children; `Classes` is what the classes do for their own. Xml is saving and loading over the
--     tokens of Qt's reader and writer, `Format`, of which `Reads` states what the loader relies on.
--   PaIlda: src/driver_portaudio_ilda.cpp. `CircularBuffer` is boost's buffer, of which `Holds`
--     states what the driver relies on; `PortAudio` is the library; samples are of any type. It is
--     a driver for Head, as DummyIlda is.
--   Midi: src/midi.cpp over src/alsamidi.cpp. `Jdksmidi` is the parser library, `RawMidi` the
--     device, of which `Writes` states what a write takes.
--   Registry: the registries of classes in src/framesource_impl.cpp and src/driver.cpp.
--   ColourRotator: src/colourrotator.cpp. `Qt` is what C++ does with floats and Qt with colours and
--     numbers; `Bounds` states how floats and colours keep to bounds. The child is a parameter. The
--     loops on floats run on fuel, of which the harmonic and the number of points say how much is
--     enough.
--   Resampler: src/resampler.cpp. `Zita` is the points and zita-resampler, `Processes` what `process`
--     does. The loops run on fuel: the number of blocks, and the frames that the library owes for one.
--   Tests, below each part: runs on small inputs.
--
-- Machine integers. `unsigned int` wraps at 2^32 and `size_t` at 2^64; an `int` that holds an
-- `unsigned int` is written with `to_int` and `to_u32`. Sizes of vectors are natural numbers.
--
-- Fuel. `FrameSequencer::nextFrame` has two nested loops: the inner one makes at most one round for
-- each entry of the index table and one more, the outer one at most one for each repeat left and
-- two more, and `next_frame` is given that much. The loop of `dataRequested` is given one round for
-- each point of space in the driver and two more; it can need more only when frames without points
-- or sources without frames are played. The loop over the selections in `clear` is given their
-- number. `loadFrames` and the loops inside it are given as many rounds as a tree has tokens, the
-- loop over the sections of an ILDA file two more than there are sections with points, and the
-- loops over the MIDI queues one more than there are bytes; theorems state that this is enough.
--
-- Not modelled. Qt, zita-resampler, jdksmidi, the sound card and the arithmetic of floats are
-- parameters. In Head the resampler is one too. Widgets and dialogs, geometry, the drawing of
-- frames, logging, hardware and file input and output, vendored code, and the class AbstractFrame,
-- which no build file names, are left out. Threads: the slots of one head run one after the other,
-- and so do the callback of the sound card and the functions that give it points; the threads that
-- save and load a show run without changes of the table by others.
pub mod Prelude
pub mod Random
pub mod Playlist
pub mod Sequencer
pub mod MotorMix
pub mod Head
pub mod DummyIlda
pub mod StaticFrame
pub mod Ilda
pub mod Engine
pub mod SourceTree
pub mod PaIlda
pub mod Midi
pub mod Registry
pub mod ColourRotator
pub mod Resampler
