-- ===== src/Md/RoundTrip.antt =====
-- Serializing and then parsing metadata, and the other way round.
use gdp.Md.{Md}
