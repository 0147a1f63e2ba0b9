-- ===== src/Kops/Within.antt =====
-- The service network against the network that it is taken from.
