-- ===== src/Lib.antt =====
-- matter.winrt projects the Matter controller SDK to Windows applications. A controller runtime
-- (winrt/Projection.cpp) admits operations, starts an interaction with a device on the Matter event
-- loop, waits for its callbacks and hands the result to the caller; subscriptions pass reports on to
-- handlers; camera sessions go through a host of their own. This library models the parts that keep
-- state, from the source text, and proves what they promise each other.
--
-- Base has the lists, options, results and Boolean tests that the models share; Chip has CHIP_ERROR as
-- far as the sources look at it. Poll is the polling loop that the waiting threads share: a round is a
-- function of its number, and the rounds are fuel. Each theorem that a loop returns says how many
-- rounds are enough: those that fit before its deadline at 100 milliseconds a round (10 for a camera
-- command), or fourteen reads of the node index.
--
-- Admission (RuntimeOperationAdmission and AcquireOperationLock in winrt/Projection.cpp): Wait has the
-- two waiting loops, Nodes the map of node mutexes, Lifetime the shared mutex that commissioning and
-- shutdown take alone. Locks are atomic, and a history is a sequence of steps of any threads.
--
-- Interaction (winrt/Projection.cpp): OneShot is OnOffOperationState, CommandOperationState and
-- ReadOperationState; Write is GenericWriteState, Invoke is GenericInvokeState, Read is GenericReadState
-- with the wait of ReadAttribute in Read/Waiting, EventRead is GenericEventReadState with ReadEvents and
-- SubscribeEvent in EventRead/Waiting. A callback is a constructor; the results of the SDK's calls and
-- the decoded values are its arguments. A throwing report callback is an input too.
--
-- Subscription (EventSubscription; AttributeSubscription has the same text): the handlers, the queue
-- of at most 256 reports, the thread that drains it and the publisher, one locked block a step.
--
-- Camera: Ownership is winrt/CameraAudioAllocationOwnership.h; Release is PendingCameraRelease in
-- winrt/CameraVideoStreamAllocation.h, its threads split at the mutex; Host is
-- winrt/CameraControllerRuntime.h, its Command the operation that sends one command. The counters of
-- endpoints and handles wrap at 16 and 64 bits. Ownership/Allocation is AllocateCameraAudioStream and
-- DeallocateCameraAudioStream of winrt/Projection.cpp on that table; Signaling is StartCamera,
-- CloseCamera and the other camera operations of ControllerRuntime on that host, with Send of
-- Host/Command; Failure is MatterCameraFailure and RunCameraOperation. Metadata reads what a camera
-- reports from property sets: Descriptor has endpoints, clusters and the privacy, Streams the allocated
-- streams and the requests they are checked against, Audio the audio capabilities and the controls.
-- Discovery is DiscoverCameraEndpoints, a walk along a list of endpoints that grows; 129 rounds are
-- enough, since the list takes at most 128. Prepared is AllocateCameraVideoStream, StartPreparedCamera
-- and StartPreparedCameraSession, which own a stream or a session until they return it; Ice has the
-- checks of ICE servers and candidates. ReadAttribute is a parameter of these models, a function of the
-- path: a read that an operation makes twice has two of them.
--
-- Commissioning (winrt/Projection.cpp): Stages has the projections of the SDK's stages, Pairing is
-- PairingState with PairingDelegate, NodeIndex is LoadCommissionedNodes and PersistCommissionedNodes,
-- Nodes is Commission, RecoverNode and RemoveNode on the list of nodes and on its stored copy, Progress
-- is the queue of progress values with the threads that drain it and wait for it, Ble is
-- CommissionBleAsync with the state of its progress callback.
--
-- Tlv (winrt/Projection.cpp): Encode is EncodePropertySet and EncodeInspectable, with strtoul in
-- Encode/Key; Decode is DecodeTlvValue; Root is EncodePropertySetRoot with the round trip through
-- DecodePropertySetRoot; PropertyScalar is PropertySetScalar. A value is a tree, and so is a document:
-- the calls of the SDK's writer and reader are parameters, and the laws of the reader are those of
-- Decode/Reader. The fuel of the decoder is enough at the size of the document. Tree is a writer and a
-- reader that meet these laws. Keys with one field number keep their order here, which std::sort does
-- not promise.
--
-- Not modelled: the start and shutdown of ControllerRuntime and its forwarding methods, the coroutines
-- of the asynchronous layer, the credentials of CommissionBleAsync, and AcquireCleanup, whose lock has
-- no deadline. Memory is not exhausted. The Matter SDK, the Windows runtime, winrt::event and the
-- mutexes are libraries: the models take what they return as inputs. Tests modules run the definitions
-- on concrete inputs.
pub mod Admission
pub mod Base
pub mod Camera
pub mod Chip
pub mod Commissioning
pub mod Interaction
pub mod Poll
pub mod Subscription
pub mod Tlv
