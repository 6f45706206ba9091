-- ===== src/Dns/Name/RoundTrip.antt =====
-- ReadName against the packet form of names: plain, and ending in a compression pointer.
