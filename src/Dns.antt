-- ===== src/Dns.antt =====
-- The wire format of the Domain Name System as net_lab7/DNSResolver.cpp writes and reads it: names
-- in Name, the records of a response in Answers. Proofs stand in the modules below those.
pub mod Name
pub mod Answers
