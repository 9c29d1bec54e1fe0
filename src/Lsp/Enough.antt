-- ===== src/Lsp/Enough.antt =====
-- The fuel of the loop of `LspServer::run`, compiler/src/lsp/transport_impl.inc.
