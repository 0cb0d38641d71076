-- ===== src/Auth.antt =====
-- AuthClientManager.h and AuthClientManager.cpp: who may use the proxy. The boost::multi_index
-- container is not code of this repository: it is the parameter `AuthInfoContainer`.
pub mod Users
pub mod Manager
pub mod Checks
