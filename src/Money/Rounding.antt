-- ===== src/Money/Rounding.antt =====
-- `Amount.round` and `Amount.isRound` of frontend/lib/Amount.tsx.
