-- ===== src/Addresses/Block/Mapped.antt =====
-- The IPv4 addresses in sixteen bytes, against the loops over an IPv6 subnet.
