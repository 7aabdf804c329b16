-- ===== src/Tests.antt =====
-- The theorems at concrete inputs, and runs of the model on small inputs.
mod NativeLink
mod Direct
mod Model
mod Publisher
mod Retained
mod Subscriber
mod Replay
mod Camera
mod MsgPack
mod Announce
