-- ===== src/Tests.antt =====
-- Runs of the model at concrete inputs, and the theorems at inputs that meet their hypotheses.
mod Sbe
mod Metadata
mod Frames
mod Broker
mod Reader
mod Requests
mod Client
mod Unknown
mod Codecs
mod Cmd
mod Service
mod Subscription
mod Turns
mod Unparsed
mod Called
