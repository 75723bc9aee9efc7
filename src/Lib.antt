-- ===== src/Lib.antt =====
-- Verification library of greatone, an Android library that sends and receives coded video over
-- RTP.
--
-- The program. A camera frame comes to CodecSender, which changes its chroma order and hands it
-- to the encoder; the coded buffer comes back by a callback and goes out through an RtpSender,
-- which wraps a session of jrtplib. On the other side an RtpReceive polls its session, a
-- RTPSessionEx, in a thread, and gives each packet to CodecReceiver, which hands it to the
-- decoder. The encoder and the camera stand in libraries that CodecBaseLib and CameraLib load
-- for the version of Android. The first has CodecBase, a loop around Android's MediaCodec, and
-- the second JNICameraListen, a listener to Android's camera service; an older CameraHardware
-- films with a V4L2 device instead. FileEnCodec and FileDeCodec record coded frames to a file
-- and play them. The classes of src/temp/Common are queues of buffers, each with a thread that
-- serves it. CodecMedia and SenderMedia are the entry points for the Java side, which make and
-- delete these objects.
--
-- The files.
-- - Base: the names that all files share, Boolean tests, lists and integers over native numbers.
-- - World: what lies outside. A call of jrtplib, of the codec and camera libraries, of dlopen
--   and of pthread is recorded in a trace, and an environment gives its result, which may be
--   anything. Its child History reads a value off the trace, call by call. Calls of system
--   functions that only return the number of an error to be logged are left out.
-- - RtpSender: src/RtpTrans/RtpSender.cpp. Defs has initSession, connect, disConnect,
--   deinitSession and both sendBuffer; Fragments has sendBufferEx and sendBufferEx1; Monitor and
--   Protocol are about the order of the session's calls, Packets and Payload about what is sent.
-- - Receive: Peers is src/RtpTrans/RTPSessionEx.cpp, Defs is src/RtpTrans/RtpReceive.cpp,
--   Delivery has the theorems on threadLoop. Sources is about many sources of one session, whose
--   handlers jrtplib calls: Balance about the addresses added and deleted, Table about jrtplib's
--   table of destinations, which is a parameter with its laws.
-- - CommonThread: src/Common/CommonThread.cpp.
-- - CodecSender: src/Media/CodecSender.cpp, with the frame conversion in Frame.
-- - OldSender: src/temp/CodecSender.cpp, an older CodecSender on the camera service itself.
-- - CodecReceiver: src/Media/CodecReceiver.cpp. Served is about it together with the codec
--   library that serves its calls.
-- - Loader: src/Media/CodecContext.cpp and src/Media/CameraContext.cpp.
-- - FileCodec: src/Media/FileEnCodec.cpp and src/Media/FileDeCodec.cpp. A file is a list of
--   bytes. RoundTrip is about a whole file, Cut about one that ends within a frame, Overrun
--   about a length that is too large.
-- - Queue, SynQueueThread, QueueThread, CThread: the files of those names in src/temp/Common.
--   Queue has the memory, a heap of nodes and blocks, and what the three have in common; Wait is
--   about one round of a thread, Process about its loop. QueueThread.Steps has the thread and
--   the other threads step by step, at the mutex and the condition variable: Model is the same
--   without the memory, Agree that the two agree, Wakes and Run are about signals, Progress
--   about what gets delivered.
-- - Stream: the parts together. Encoder is about a picture on its way from the camera service
--   through src/Media/Camera/CameraListen.cpp and src/Media/CodecSender.cpp to the encoder,
--   Delivered, Decoder and Coded about a coded frame on its way from the encoder through
--   src/Media/CodecSender.cpp, src/RtpTrans/RtpReceive.cpp and src/Media/CodecReceiver.cpp to
--   the decoder. What jrtplib makes of a packet is a parameter.
-- - Codec: src/Media/Codec/CodecBase.cpp, CreateCodec in base4 to base6 and
--   src/Media/Codec/CodecApi.cpp. Drain is about getCodecBuffer, Granted about the arrays of
--   addresses, Service about calls in any order, Race about stopCodec and the thread.
-- - Camera: src/Media/Camera/old/CameraHardware.cpp and BaseCamera.cpp. Format has the choice of
--   a format and a size, Buffers the buffers and the start of the device, Capture the camera's
--   own operations and the loop of its thread. Capture/WellFormed, Steps and Run are about all
--   operations, Taken about the loop, Init about InitCamera, Rate about the frame rate.
-- - CameraApi: src/Media/Camera/CameraListen.cpp, CameraApi.cpp and the files Camera4.cpp to
--   Camera6.cpp, of which the last two are the same text, with the theorems in Connection.
-- - OldCameraApi: src/Media/Camera/old/CameraApi6.cpp, an older form of that library, with the
--   comparison in Same.
-- - CodecMedia: src/Media/CodecMedia.cpp. Receiving is about receivers, Sending about a sender
--   whose start fails.
-- - TimeConsume: src/temp/Common/TimeConsume.cpp.
-- - SenderMedia: src/SenderLIib/SenderMedia.cpp, with the theorems on its session in Session.
-- - Examples: the theorems on concrete inputs.
--
-- State and operations. A class is a record of its fields, and a method is a function on it, in
-- a small monad: of World where it makes calls, of Queue.Mem where it works on the heap. What C
-- leaves undefined (a call or read through NULL, a read or write behind an array) is an outcome
-- of its own, `crash` or `fault`, except for the byte that some constructors and CreateCodec
-- write behind an array, and for what jrtplib reads at the pointers that it is given: there the
-- trace has the memory and the length. A mutex that is locked twice is `blocked`.
--
-- Bounds and fuel. The walk along a linked list takes the count of its cells as fuel, which the
-- theorems on queues show to be enough. The exchange of chroma bytes has one more step than
-- there are bytes. A number has at most ten digits. The passes of the receiving loop are a list,
-- and so are the rounds of QueueThread and CThread; the tests of the receiving loop's flag that
-- find it set are counted. The loops of getCodecBuffer and getCaptureFrame, which end when
-- MediaCodec has no more outputs and when another thread clears mCapturing, take fuel; enough of
-- it is that bound and one more, as their theorems show.
--
-- Not modelled: jrtplib, jthread and the copies of Android's sources (libraries of others); the
-- registration of the entry points with the Java machine; the readers of system files in
-- src/temp/Common/Utils.cpp; the branch of v4l2SetVideoParams under mTvdFlag, which is never
-- true; a NULL pointer among the functions of the codec library, where CodecSender,
-- CodecReceiver, the older CodecSender, FileEnCodec and FileDeCodec call them: the library is
-- taken to be loaded with all its functions; logging, wake-ups of a condition variable without a
-- signal, priorities of threads, and destructors that do nothing.
pub mod Base
pub mod World
pub mod RtpSender
pub mod FileCodec
pub mod CodecSender
pub mod OldSender
pub mod Stream
pub mod Queue
pub mod SynQueueThread
pub mod QueueThread
pub mod CThread
pub mod Loader
pub mod Receive
pub mod CommonThread
pub mod CodecReceiver
pub mod SenderMedia
pub mod Codec
pub mod Camera
pub mod CodecMedia
pub mod CameraApi
pub mod OldCameraApi
pub mod TimeConsume
pub mod Examples
