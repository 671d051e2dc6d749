-- ===== src/Proxylab.antt =====
-- proxylab: the Rio input and output routines of csapp.c and the URIs of the web proxy proxy.c.
pub mod Rio
pub mod Uri
pub mod Connect
pub mod Relay
pub mod Request
pub mod Threads
