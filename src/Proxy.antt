-- ===== src/Proxy.antt =====
-- The two proxies: proxylab-handout/proxy.c, driven by epoll, and first-proxylab-handout/proxy.c,
-- with threads. They share the text of their request parser.
pub mod Parse
pub mod Events
