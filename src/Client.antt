-- ===== src/Client.antt =====
-- The tester's side: libdoipclient/include/DoIPClient_h.h and libdoipclient/src/DoIPClient.cpp.
pub mod State
pub mod Requests
pub mod Display
pub mod Replies
