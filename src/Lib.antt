-- ===== src/Lib.antt =====
-- scrcpy client, scrcpy/app/src: the control path between the computer and the device,
-- the HID devices whose reports travel on it, the way of the packets from the device to the
-- decoders, the screen that shows the frames, and the ring of the audio player.
--
-- The client sends control messages to the device and reads device messages back, on one socket.
-- Producers push messages on the controller's queue (controller.c), a ring that grows
-- (util/vecdeque.h); the controller thread serializes each one (control_msg.c) with the byte-order
-- helpers of util/binary.h and the text helpers of util/str.c. The receiver thread (receiver.c)
-- gathers the bytes that come back, splits them into device messages (device_msg.c) and hands
-- those on. A thread that needs an acknowledgement waits for it (util/acksync.c).
--
-- The demuxer thread (demuxer.c) reads packets from its own socket, merges config packets into the
-- media packets behind them (packet_merger.c) and pushes each to the sinks of a packet source
-- (trait/packet_source.c): decoders and a recorder. A decoder pushes its frames to the screen
-- (screen.c), which takes them from a frame buffer (frame_buffer.c) when an event tells it to, and
-- keeps the size of its window in step with theirs.
--
-- Which file models what:
--   Prelude and its children: numbers, lists, Boolean tests, addressable storage (Memory: what an
--     array or buffer holds, as a function of the index), rings in storage (Window).
--   Binary: util/binary.h. Fixed: sc_float_to_u16fp and sc_float_to_i16fp, on a float given as a
--     sign and a dyadic magnitude, with their assertions as a result; NaN, infinities and the rounding of subnormal quotients are
--     not modelled.
--   Str: util/str.c, sc_strncpy, sc_str_utf8_truncation_index and sc_str_list_contains, on a C string
--     as the list of its bytes before the NUL.
--   ControlMsg: struct sc_control_msg, and in Serialize sc_control_msg_serialize, where each store
--     goes to the offset that the source gives. Wire describes the bytes of a message field by
--     field. Logging (sc_control_msg_log) and the release of memory are left out.
--   DeviceMsg: sc_device_msg_deserialize; malloc is a test that the environment gives.
--   Receiver: process_msg, process_msgs and run_receiver. The socket is the list of the bytes
--     still to come and a schedule of piece sizes; the end of the schedule or of the bytes is the
--     end of the connection. process_msgs runs on one unit of fuel more than it has bytes, since
--     each round but the last consumes at least one. Failed assertions are results;
--     behind that on receiver->acksync, the test of the same pointer is never false.
--   AckSync: util/acksync.c. A wait is given the sleeps of its condition variable: what the other
--     threads do during each, and whether it reaches the deadline or ends for no reason. A signal is
--     a flag of the state, and a sleep that nothing ends goes on without a test of the condition.
--   VecDeque: the macros of util/vecdeque.h; the size of an item, the allocator and the content of
--     new blocks are arguments (Heap); a failed assertion is a result.
--   Vector: the macros of util/vector.h, in the same way; sc_vector_insert, which casts the item to
--     size_t, and sc_vector_index_of are not modelled. Rotate: the moves, which the source makes
--     on characters with all sizes multiplied by that of an item, on items.
--   Controller: controller.c as steps of a schedule. What stands between a lock and an unlock is
--     one step; the thread takes a message in one step and writes it in another. The value that
--     net_send_all returns is chosen by the schedule.
--   Hid: the HID devices of scrcpy/app/src/hid. Descriptor reads a report descriptor the way USB HID
--     defines it, as far as the size of a report goes. Keyboard, Mouse and Gamepad model
--     hid_keyboard.c, hid_mouse.c and hid_gamepad.c; the masks, scancodes, button and axis numbers
--     that input_events.h takes from SDL are fields of a record (Sdl) in each. A bitwise operation
--     is that of the native numbers. A failed assertion on SC_GAMEPAD_ID_INVALID is a result.
--   AudioBuf: util/audiobuf.c, each operation as a whole, on an array of samples; the two cursors are
--     read once by each operation, and their arithmetic is that of uint32_t. Threads splits a read
--     and a write into the loads, the copies and the store of the cursor, for interleavings; the
--     acquire and release orders of the atomic variables are taken to make every step see the
--     steps before it. A failed assertion on a size or a count of 0 is a result, and in Threads a
--     read that never goes on.
--   Sinks: trait/packet_source.c, and trait/frame_source.c, the same code over frames. A source is
--     known by the list of the calls that it makes of its sinks; what a sink answers may depend on
--     all calls before. The failed assertion on a source without sinks is a result.
--   PacketMerger: packet_merger.c; of an AVPacket, the timestamp, the key flag and the data.
--   Demuxer: demuxer.c. The socket is the list of the bytes that it delivers before it ends; FFmpeg,
--     the allocator and the sinks are a record of answers (Env). The loop runs on one round more
--     than the stream has bytes, since each round that goes on reads thirteen at least. The failed
--     assertions on the length of a packet and on the number of sinks are an abort. Receive: packets and codec ids; Wire: the
--     bytes of a packet.
--   Orientation: enum sc_orientation of options.h and sc_orientation_apply of options.c.
--   FrameBuffer: frame_buffer.c, a frame being its size and a picture; reference counting, which
--     fails before the buffer changes, is an answer of the screen's environment.
--   Screen: screen.c with a video. Geometry: sizes and coordinates; a product of two sizes that does
--     not fit the `int` of the source is a result, and the theorems take contents of sizes below
--     2 ^ 15, whose products with any uint16_t fit. Window: the state and how it is resized and turned. Frames: from the frame
--     buffer to the display. Screen itself: the events and shortcuts as a sequence of actions from
--     sc_screen_init on, with the number of SC_EVENT_NEW_FRAME in the queue of events. Failed
--     assertions, these overflows and divisions by zero are a result. A shortcut before the first frame is ignored,
--     since the window is hidden until then. What SDL and the display answer may depend on all
--     calls before. Left out: the creation of the window, the screen without video, and the input
--     manager and mouse capture behind the events.
--
-- Not modelled: threads, sockets and SDL themselves, the command line, adb, the decoders and the
-- display, the recorder, the audio player and regulator, and the programs in Java and Kotlin.
pub mod Prelude
pub mod Binary
pub mod Str
pub mod VecDeque
pub mod Vector
pub mod ControlMsg
pub mod DeviceMsg
pub mod AckSync
pub mod Receiver
pub mod Controller
pub mod Hid
pub mod AudioBuf
pub mod Sinks
pub mod PacketMerger
pub mod Demuxer
pub mod FrameBuffer
pub mod Orientation
pub mod Screen
