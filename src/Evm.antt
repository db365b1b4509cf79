-- ===== src/Evm.antt =====
-- catalog/quicknode/evm: the sources that follow an EVM chain.
pub mod Blocks
pub mod Events
