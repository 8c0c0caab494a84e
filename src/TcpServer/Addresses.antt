-- ===== src/TcpServer/Addresses.antt =====
-- src/net/TcpServer.cc and src/net/InetAddress.cc: a server that listens at any address.
