-- ===== src/Telephony.antt =====
-- The telephony client (tel_test/ls_telephony_util.cpp, tel_test/AppClient.cpp,
-- tel_test/zib_dial_test.cpp). A request goes to the
-- phone service and its reply fills the caller's memory; the service also sends events. The service
-- and the platform's Parcel are parameters. Telephony/Pdu converts the number of a message centre,
-- Telephony/PduText reads it back, Telephony/PduRoom is the room it needs, Telephony/Memory holds what replies are
-- read into, Telephony/Sim, Telephony/Calls and Telephony/Replies read them, Telephony/Client creates and
-- deletes the client, Telephony/Requests sends requests, Telephony/Silent is about their values,
-- Telephony/Lifetime is the life of the client object, Telephony/Events handles what the service
-- sends, Telephony/Answering the callbacks of the dial test over them, Telephony/Accepts and
-- Telephony/Answered what these do to the client, Telephony/Stale is about the static arrays,
-- Telephony/DialTest is the dial test over all of them, Telephony/Dialing what it comes to.
pub mod Pdu
pub mod PduText
pub mod PduRoom
pub mod Memory
pub mod Sim
pub mod Calls
pub mod Replies
pub mod Client
pub mod Requests
pub mod Silent
pub mod Events
pub mod DialTest
pub mod Dialing
pub mod Stale
pub mod Lifetime
pub mod Answering
pub mod Accepts
pub mod Answered
